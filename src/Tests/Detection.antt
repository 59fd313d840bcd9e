-- ===== src/Tests/Detection.antt =====
-- Detection of the protocol on scripted ports.
use watlowlib.Base.{ℕ, ◌+◌, ◌≡◌, refl, arith, List, [], ◌∷◌, ◌++◌, Bool, true, false, Bytes}
use watlowlib.Base.Int.{ℤ, pos}
use watlowlib.Errors.{watlow_timeout_error, modbus_slave_failure_error}
use watlowlib.Result.{ok, err}
use watlowlib.Transport.Fake.{
  Fake, ScriptedReply, fixed, verbatim, with_buffer, resolve_reply, produce,
}
use watlowlib.StdBus.Value.{int}
use watlowlib.StdBus.Crc.{header_crc8, data_crc16_le_bytes}
use watlowlib.StdBus.Framing.{Frame, encode_frame}
use watlowlib.StdBus.Tlv.{decode_value}
use watlowlib.StdBus.Payload.{read_response, decode_payload, decode_read}
use watlowlib.StdBus.Client.{request_frame}
use watlowlib.StdBus.Client.Execute.{IsExchange}
use watlowlib.Modbus.Ops.{ModbusOp}
use watlowlib.Modbus.Remap.{ModbusClass, slave_device_failure}
use watlowlib.Modbus.Client.{Outcome, returned, timed_out, foreign, Slave, ModbusClient}
use watlowlib.Devices.Session.{ProtocolClient, stdbus_kind, modbus_kind}
use watlowlib.Detection.{Link, probe_modbus, detect_protocol}
use watlowlib.Detection.Probes.{
  hardware_id_request, Recognises, modbus_client, probe_modbus-Recognises,
}
use watlowlib.Detection.Lifecycle.{IsTypedLink, Detected, detect_protocol-Detected}
use watlowlib.Detection.Exchange.{fake_link, opened, detect_protocol-exchange}
use watlowlib.Tests.Fixtures.{whole_floats}
use watlowlib.Tests.StdBus.{address_one}

-- A Std Bus port on which nothing answers, and a Modbus port that reports a failure of the slave; the
-- state counts the calls.
abbrev silent_link : Link ℕ Bytes ℕ
silent_link = record {
  open_link = λ n. (ok tt, n + 1);
  drain_input = λ n. (ok tt, n + 1);
  close = λ n. (ok tt, n + 1);
  client = record { kind = stdbus_kind; execute = λ q a n. (err watlow_timeout_error, n + 1) };
}

abbrev failing_client : ProtocolClient ℕ ModbusOp (List ℤ)
failing_client = record {
  kind = modbus_kind;
  execute = λ q a n. (err modbus_slave_failure_error, n + 1);
}

abbrev failing_link : Link ℕ ModbusOp (List ℤ)
failing_link = record {
  open_link = λ n. (ok tt, n + 1);
  drain_input = λ n. (ok tt, n + 1);
  close = λ n. (ok tt, n + 1);
  client = failing_client;
}

silent_link-IsTypedLink : IsTypedLink silent_link
silent_link-IsTypedLink = record {
  opens = λ w. tt;
  drains = λ w. tt;
  closes = λ w. tt;
  executes = λ q a w. refl;
}

failing_link-IsTypedLink : IsTypedLink failing_link
failing_link-IsTypedLink = record {
  opens = λ w. tt;
  drains = λ w. tt;
  closes = λ w. tt;
  executes = λ q a w. refl;
}

detect_protocol-Detected_example :
    Detected silent_link failing_link 1 0 (detect_protocol silent_link failing_link 1 0)
detect_protocol-Detected_example =
    detect_protocol-Detected silent_link failing_link 1 0 silent_link-IsTypedLink
      failing_link-IsTypedLink

-- A slave that reports a failure of its own.
abbrev is_failure : Unit {0} → ModbusClass → Bool
is_failure e slave_device_failure = true
is_failure e _ = false

abbrev failing_slave : Slave (Unit {0}) ℕ
failing_slave = record {
  read_holding_registers = λ r n s. (foreign tt, s + 1);
  read_input_registers = λ r n s. (timed_out, s + 1);
  write_one = λ r w s. (timed_out, s + 1);
  write_many = λ r ws s. (timed_out, s + 1);
}

abbrev only_slave : ℤ → Outcome (Unit {0}) (Slave (Unit {0}) ℕ)
only_slave a = returned failing_slave

abbrev fresh_client : ModbusClient ℕ
fresh_client = record { bus = 0; disposed = false }

probe_modbus-Recognises_example :
    Recognises is_failure
      (foreign tt)
      (probe_modbus (modbus_client is_failure only_slave tt tt) 1 fresh_client).0
    × ((probe_modbus (modbus_client is_failure only_slave tt tt) 1 fresh_client).1
        ≡ record fresh_client { bus = 1 })
probe_modbus-Recognises_example =
    probe_modbus-Recognises is_failure only_slave tt tt 1 fresh_client failing_slave (foreign tt) 1
      (omega arith) (omega arith) refl refl refl (λ e h. cc h)

-- The request for parameter 1001 to the address 1, and the frame that answers 75 to it.
abbrev probe_wire : Bytes
probe_wire = 85 ∷ 255 ∷ 5 ∷ 16 ∷ 0 ∷ 0 ∷ 6 ∷ 232 ∷ 1 ∷ 3 ∷ 1 ∷ 1 ∷ 1 ∷ 1 ∷ 94 ∷ 160 ∷ []

abbrev answer_frame : Frame
answer_frame = record {
  frame_type = 0x06;
  dst = 0x00;
  src = 0x10;
  payload = 0x02 ∷ 0x03 ∷ 0x01 ∷ 0x01 ∷ 0x01 ∷ 0x01 ∷ 0x01 ∷ 75 ∷ [];
}

abbrev answer_wire : Bytes
answer_wire = 85 ∷ 255 ∷ 6 ∷ 0 ∷ 16 ∷ 0 ∷ 8 ∷ 137 ∷ 2 ∷ 3 ∷ 1 ∷ 1 ∷ 1 ∷ 1 ∷ 1 ∷ 75 ∷ 117 ∷ 140 ∷ []

abbrev scripted : ScriptedReply
scripted = fixed (verbatim ([] ++ (answer_wire ++ [])))

abbrev closed_port : Fake
closed_port = record {
  script = (probe_wire, scripted) ∷ [];
  queue = [];
  writes = [];
  unmatched = [];
  read_buffer = [];
  is_open = false;
  read_timeout = false;
  write_timeout = false;
}

probe-IsExchange :
    IsExchange whole_floats
      (opened closed_port)
      hardware_id_request
      0x10
      answer_frame
      probe_wire
      []
      answer_wire
      []
      scripted
      (read_response 1 1 1 (int (pos 75)) 1)
unfolding encode_frame request_frame header_crc8 data_crc16_le_bytes resolve_reply produce
    decode_payload decode_read decode_value
probe-IsExchange = record {
  ready = record { opened = refl; reading = refl };
  writing = refl;
  empty = refl;
  requested = refl;
  found = refl;
  made = refl;
  frame_fits = ground arith;
  small = omega arith;
  replied = refl;
  decoded = refl;
  clean = ground arith;
  room = omega arith;
}

abbrev no_bus : Link Fake ModbusOp (List ℤ)
no_bus = record {
  open_link = λ s. (err watlow_timeout_error, s);
  drain_input = λ s. (ok tt, s);
  close = λ s. (ok tt, s);
  client = record { kind = modbus_kind; execute = λ q a s. (err watlow_timeout_error, s) };
}

detect_protocol-exchange_example : detect_protocol (fake_link whole_floats) no_bus 1 closed_port ≡ (
  (ok stdbus_kind, []),
  with_buffer (record (opened closed_port) { queue = []; writes = [] ++ (probe_wire ∷ []) }) [],
)
detect_protocol-exchange_example =
    detect_protocol-exchange whole_floats no_bus closed_port 1 0x10 answer_frame probe_wire []
      answer_wire [] scripted (read_response 1 1 1 (int (pos 75)) 1) refl address_one
      probe-IsExchange
