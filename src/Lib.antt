-- ===== src/Lib.antt =====
-- watlowlib: a driver for Watlow temperature controllers over two serial protocols.
--
-- The program is a stack of layers, and the library has a tree for each. A controller (src/watlowlib/
-- devices/controller.py) gives typed calls over a session (src/watlowlib/devices/session.py). A session
-- takes a command (src/watlowlib/commands), lets its variant for the port's protocol encode the request with
-- the parameter registry (src/watlowlib/registry/parameters.py), and hands it to the protocol client:
-- `StdBusProtocolClient` (src/watlowlib/protocol/stdbus/client.py) writes and reads frames on a byte
-- transport, `ModbusProtocolClient` (src/watlowlib/protocol/modbus/client.py) calls a slave of the package
-- anymodbus. The reply comes back through the variant's `decode`, and the session keeps which commands the
-- device supports. Ahead of a session, the detection (src/watlowlib/protocol/detect.py) finds which protocol
-- a port speaks; on top of a controller, the recorder (src/watlowlib/streaming/recorder.py) polls at a fixed
-- rate into a bounded stream.
--
-- Errors.antt holds the exception classes of src/watlowlib/errors.py; an exception is its class. Result.antt
-- and Exec.antt are calls that may raise, without and with a state: what happened before a raise stays.
-- Transport.antt is the interface of src/watlowlib/transport/base.py, and Transport/Fake.antt the scripted
-- transport of src/watlowlib/transport/fake.py. Base has the shared lists, numbers and texts.
--
-- StdBus: Crc.antt is _crc.py (`header_crc8`, `data_crc16`), Framing.antt is framing.py (`encode_frame`,
-- `decode_frame`), Tables.antt is tables.py, Value.antt and Tlv.antt are tlv.py (`encode_value`,
-- `decode_value`), Payload.antt is payload.py, and Client.antt is client.py (`execute`, `_read_frame`), all in
-- src/watlowlib/protocol/stdbus. The preamble scan runs on 257 rounds of fuel: each round adds a byte to
-- what is scanned, and more than 256 bytes raise.
--
-- Modbus: Ops.antt is ops.py (`ModbusOp.__post_init__` is `post_init`), Remap.antt is errors.py, Tables.antt is
-- tables.py, Codec.antt is codec.py and Client.antt is client.py of src/watlowlib/protocol/modbus. Slaves, the
-- exceptions of anymodbus with `isinstance` on them, its `encode` and `decode` and its enumerations are
-- parameters; `RoundTrips` of Codec/RoundTrip.antt is what anymodbus documents of its codec, and
-- Ops/Transactions.antt writes the transactions of the Modbus Application Protocol out.
--
-- Registry: Spec.antt has the rows and their checks, Index.antt `ParameterRegistry` with its look-up tables,
-- Range.antt `_parse_range` over the patterns of Pattern.antt, Rows.antt and Loader.antt `_build_spec` and
-- `load_parameters` from the JSON rows on, all of parameters.py (the numbers of a row that the bundled data
-- has at 0 or above are naturals: a negative one ends in `stuck`); Units.antt is units.py with
-- src/watlowlib/units.py, and Families.antt families.py with the capabilities of src/watlowlib/devices/
-- capability.py. A pattern is the list of the ways it matches, in the order in which `re` tries them.
-- Commands: Command.antt is the descriptor of commands/base.py; Request.antt, StdBusParameters.antt and
-- ModbusParameters.antt are commands/parameters.py.
--
-- Devices: Session.antt is `Session.execute` with the availability cache. Facade.antt has `Controller`,
-- `reading_from_entry` and the unit labels of the session, over the interface `Gateway` of reads and writes
-- of a parameter; Facade/Loops.antt is src/watlowlib/commands/loop.py with alarms.py, and Facade/Polling.antt
-- `poll_controller` of src/watlowlib/streaming/_poll.py. Stack.antt fills `Gateway` by a session over the Std
-- Bus client over a transport.
--
-- Detection.antt is src/watlowlib/protocol/detect.py with client.py: the two probes, and `detect_protocol`
-- over an interface `Link` of a transport with its client.
--
-- Streaming is src/watlowlib/streaming/recorder.py: Summary.antt the policies, counters and checks,
-- Channel.antt the stream of anyio with its documented behaviour, Publish.antt `_publish`, Producer.antt
-- `_run_producer`. The loop of `_publish` runs on fuel, and one round is enough for a stream that holds at
-- least one batch; the loop of the producer takes a unit for each tick. Under BLOCK the producer waits for
-- the consumer, and a consumer that stalls leaves it waiting for ever: `send` then ends in `stuck`. What
-- needs a consumer that always makes room says so by the hypothesis `MakesRoom`.
--
-- Maintenance.antt is src/watlowlib/maintenance.py over an interface `Bench` of `open_device` and a controller,
-- with the settings of Transport/Settings.antt (src/watlowlib/transport/base.py).
--
-- Discovery.antt is src/watlowlib/devices/discovery.py over an interface `Scanner` of a transport and the
-- identification on it.
--
-- Tests has runs at concrete inputs.
--
-- Python's `float` is a parameter type with the operations the code uses, and `str.lower`, `str.strip`,
-- `str.upper` and the decimal text of a number are parameters; a string is its list of code points, a byte a
-- number below 256. Bounds that the code checks are checked at the same place.
--
-- Not modelled: locks, logging, time measurement, error messages and contexts; the serial port; reading
-- the bundled JSON files; the enumerations; identification, snapshots, profiles and the factory of
-- controllers; the percentiles and the task group of the recorder; manager, sinks, the synchronous wrappers
-- and the command line.
pub mod Base
pub mod Errors
pub mod Result
pub mod Exec
pub mod Transport
pub mod StdBus
pub mod Modbus
pub mod Registry
pub mod Commands
pub mod Devices
pub mod Detection
pub mod Streaming
pub mod Maintenance
pub mod Discovery
pub mod Tests
