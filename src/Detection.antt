-- ===== src/Detection.antt =====
-- src/watlowlib/protocol/detect.py: the two probes and `detect_protocol`, over interfaces of the two
-- transports with their clients; and src/watlowlib/protocol/client.py. Settings and time-outs are not
-- modelled; an address is a natural number.
pub mod Probes
pub mod Lifecycle
pub mod Exchange
use watlowlib.Base.{
  ℕ, Bool, true, false, ◌&&◌, List, [], ◌∷◌, ◌++◌, Option, none, some, Bytes, leb, if◌then◌else◌,
}
use watlowlib.Base.Int.{ℤ, pos}
use watlowlib.Errors.{
  Error, watlow_error, configuration_error, watlow_timeout_error, protocol_unsupported_error, is_a,
}
use watlowlib.Result.{Result, ok, err, stuck}
use watlowlib.Exec.{Exec, continue, pure, raise, lift, ◌>>=◌, ◌>>◌}
use watlowlib.Devices.Session.{ProtocolKind, stdbus_kind, modbus_kind, auto_kind, ProtocolClient}
use watlowlib.StdBus.Payload.{encode_read_request}
use watlowlib.Modbus.Ops.{ModbusOp, read_holding, construct}

abbrev pub probe_parameter_id : ℕ
probe_parameter_id = 1001

abbrev pub probe_register_address : ℤ
probe_register_address = pos 0

abbrev pub probe_register_count : ℤ
probe_register_count = pos 2

abbrev pub stdbus_min_addr : ℕ
stdbus_min_addr = 1

abbrev pub stdbus_max_addr : ℕ
stdbus_max_addr = 16

abbrev pub modbus_min_addr : ℕ
modbus_min_addr = 1

abbrev pub modbus_max_addr : ℕ
modbus_max_addr = 247

module _ {P : Type 0} where
  -- The handlers of the two probes.
  unfoldable pub stdbus_answer : Result P → Result Bool
  stdbus_answer (ok reply) = ok true
  stdbus_answer (err e) =
      if is_a e watlow_timeout_error
      then ok false
      else if is_a e watlow_error
      then ok false
      else err e
  stdbus_answer stuck = stuck

  unfoldable pub modbus_answer : Result P → Result Bool
  modbus_answer (ok reply) = ok true
  modbus_answer (err e) =
      if is_a e protocol_unsupported_error
      then ok true
      else if is_a e watlow_timeout_error
      then ok false
      else if is_a e watlow_error
      then ok false
      else err e
  modbus_answer stuck = stuck

module _ {C P : Type 0} where
  unfoldable pub probe_stdbus : ProtocolClient C Bytes P → ℕ → Exec C Bool
  probe_stdbus client address = lift (encode_read_request probe_parameter_id 1) >>= λ payload c.
      let (reply, c') = client.execute payload address c in (stdbus_answer reply, c')

  unfoldable pub probe_modbus : ProtocolClient C ModbusOp P → ℕ → Exec C Bool
  probe_modbus client address =
      lift (construct read_holding probe_register_address probe_register_count none) >>= λ op c.
      let (reply, c') = client.execute op address c in (modbus_answer reply, c')

-- A transport on a port, with the client that is built on it once it is open: `W` is the port and what
-- is attached to it.
pub record Link (W Q P : Type 0) : Type 0 where
  pub open_link : Exec W (Unit {0})
  pub drain_input : Exec W (Unit {0})
  pub close : Exec W (Unit {0})
  pub client : ProtocolClient W Q P

-- An entry of `attempts`.
pub data Attempt : Type 0 where
  skipped : ProtocolKind → Attempt
  no_reply : ProtocolKind → Attempt
  failed : ProtocolKind → Error → Attempt

-- What a try comes to: the protocol, or `None` with an attempt.
pub data Verdict : Type 0 where
  resolved : ProtocolKind → Verdict
  unresolved : Attempt → Verdict

module _ {W Q P : Type 0} (link : Link W Q P) (kind : ProtocolKind) where
  -- The `finally` block: an exception of `close` that is a `WatlowError` is dropped, any other takes the
  -- place of what was pending.
  unfoldable pub after_close : Result Verdict → Result (Unit {0}) → Result Verdict
  after_close pending (ok done) = pending
  after_close pending (err e) = if is_a e watlow_error then pending else err e
  after_close pending stuck = stuck

  unfoldable pub close_after : Result Verdict → W → Result Verdict × W
  close_after pending w = let (closed, w') = link.close w in (after_close pending closed, w')

  -- From the result of the probe, or the exception ahead of it, on.
  unfoldable pub conclude : Result Bool → Exec W Verdict
  conclude (ok true) w = (ok (resolved kind), w)
  conclude (ok false) w = close_after (ok (unresolved (no_reply kind))) w
  conclude (err e) w =
      close_after (if is_a e watlow_error then ok (unresolved (failed kind e)) else err e) w
  conclude stuck w = (stuck, w)

module _ {W P : Type 0} where
  abbrev pub stdbus_session : Link W Bytes P → ℕ → Exec W Bool
  stdbus_session link address =
      link.open_link >> (link.drain_input >> probe_stdbus link.client address)

  abbrev pub modbus_session : Link W ModbusOp P → ℕ → Exec W Bool
  modbus_session link address = link.open_link >> probe_modbus link.client address

  unfoldable pub try_stdbus : Link W Bytes P → ℕ → Exec W Verdict
  try_stdbus link address w =
      if leb stdbus_min_addr address && leb address stdbus_max_addr
      then (let (probed, w') = stdbus_session link address w in conclude link stdbus_kind probed w')
      else (ok (unresolved (skipped stdbus_kind)), w)

  unfoldable pub try_modbus : Link W ModbusOp P → ℕ → Exec W Verdict
  try_modbus link address w =
      if leb modbus_min_addr address && leb address modbus_max_addr
      then (let (probed, w') = modbus_session link address w in conclude link modbus_kind probed w')
      else (ok (unresolved (skipped modbus_kind)), w)

-- The end of `detect_protocol`, with the attempts beside the result.
unfoldable pub second_try :
    {W : Type 0} → Attempt → Result Verdict × W → (Result ProtocolKind × List Attempt) × W
second_try first (ok (resolved kind), w) = ((ok kind, first ∷ []), w)
second_try first (ok (unresolved a), w) = ((err protocol_unsupported_error, first ∷ a ∷ []), w)
second_try first (err e, w) = ((err e, first ∷ []), w)
second_try first (stuck, w) = ((stuck, first ∷ []), w)

unfoldable pub first_try :
    {W : Type 0} → Exec W Verdict → Result Verdict × W → (Result ProtocolKind × List Attempt) × W
first_try next (ok (resolved kind), w) = ((ok kind, []), w)
first_try next (ok (unresolved a), w) = second_try a (next w)
first_try next (err e, w) = ((err e, []), w)
first_try next (stuck, w) = ((stuck, []), w)

unfoldable pub detect_protocol :
    {W P R : Type 0}
    → Link W Bytes P
    → Link W ModbusOp R
    → ℕ
    → W
    → (Result ProtocolKind × List Attempt) × W
detect_protocol stdbus modbus address w =
    first_try (try_modbus modbus address) (try_stdbus stdbus address w)

-- `make_protocol_client`, by the kind of the client that it builds; is the transport a
-- `ModbusBusTransport`?
unfoldable pub make_protocol_client : ProtocolKind → Bool → Result ProtocolKind
make_protocol_client stdbus_kind is_modbus_bus = ok stdbus_kind
make_protocol_client modbus_kind is_modbus_bus =
    if is_modbus_bus then ok modbus_kind else err configuration_error
make_protocol_client auto_kind is_modbus_bus = err configuration_error
