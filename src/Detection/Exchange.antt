-- ===== src/Detection/Exchange.antt =====
-- Detection over the Std Bus client, on a transport of its own.
use watlowlib.Base.{ℕ, ◌≡◌, refl, List, [], ◌∷◌, ◌++◌, true, false, ◌&&◌, Bytes, leb, arith}
use watlowlib.Result.{ok}
use watlowlib.Transport.{Transport}
use watlowlib.Transport.Fake.{
  Fake, ScriptedReply, fake_transport, open_port, close_port, drain_input, with_buffer,
}
use watlowlib.StdBus.Tables.{addr_to_mac}
use watlowlib.StdBus.Framing.{Frame}
use watlowlib.StdBus.Value.{Floats}
use watlowlib.StdBus.Payload.{Payload}
use watlowlib.StdBus.Client.{Client, StdBusReply, execute}
use watlowlib.StdBus.Client.Execute.{IsExchange, execute_exchange}
use watlowlib.Modbus.Ops.{ModbusOp}
use watlowlib.Devices.Session.{stdbus_kind, ProtocolClient}
use watlowlib.Detection.{
  stdbus_answer, probe_stdbus, Link, conclude, stdbus_session, try_stdbus, first_try,
  detect_protocol,
}
use watlowlib.Detection.Probes.{hardware_id_request, request_encoded}

module _ {S F : Type 0} (t : Transport S) (fl : Floats F) where
  -- `StdBusProtocolClient(transport)`, as a client of the transport's state.
  unfoldable pub fresh_client : S → Client S
  fresh_client s = record { line = s; disposed = false }

  unfoldable pub client_of : ProtocolClient S Bytes (StdBusReply F)
  client_of = record {
    kind = stdbus_kind;
    execute = λ request address s.
        let (r, c) = execute t fl request address (fresh_client s) in (r, c.line);
  }

-- A `FakeTransport` in the place of the serial port.
unfoldable pub fake_link : {F : Type 0} → Floats F → Link Fake Bytes (StdBusReply F)
fake_link fl = record {
  open_link = open_port;
  drain_input = λ s. (ok tt, drain_input s);
  close = λ s. (ok tt, close_port s);
  client = client_of fake_transport fl;
}

-- The port once it is open and drained.
abbrev pub opened : Fake → Fake
opened s = record s { is_open = true; read_buffer = [] }

module _ {F : Type 0} (fl : Floats F) (s : Fake) (address mac : ℕ) (f : Frame) (w g wf : Bytes)
    (q : List (Bytes × ScriptedReply)) (r : ScriptedReply) (p : Payload F) where
  probe-IsExchange :
      addr_to_mac address ≡ ok mac
      → IsExchange fl s hardware_id_request mac f w g wf q r p
      → probe_stdbus (client_of fake_transport fl) address s
        ≡ (ok true, with_buffer (record s { queue = q; writes = s.writes ++ (w ∷ []) }) [])
  unfolding probe_stdbus client_of fresh_client stdbus_answer
  probe-IsExchange am h = rw request_encoded (
      rw
        (execute_exchange fl (fresh_client fake_transport fl s) hardware_id_request address mac f w
          g wf q r p refl am h)
        refl)

module _ {F : Type 0} (fl : Floats F) (s : Fake) (address mac : ℕ) (f : Frame) (w g wf : Bytes)
    (q : List (Bytes × ScriptedReply)) (r : ScriptedReply) (p : Payload F) where
  session_exchange :
      s.is_open ≡ false
      → addr_to_mac address ≡ ok mac
      → IsExchange fl (opened s) hardware_id_request mac f w g wf q r p
      → stdbus_session (fake_link fl) address s
        ≡ (ok true, with_buffer (record (opened s) { queue = q; writes = s.writes ++ (w ∷ []) }) [])
  unfolding fake_link open_port drain_input
  session_exchange shut am h =
      rw shut (probe-IsExchange fl (opened s) address mac f w g wf q r p am h)

in_range :
    (address mac : ℕ) → addr_to_mac address ≡ ok mac → (leb 1 address && leb address 16) ≡ true
unfolding addr_to_mac
in_range address mac h = ground arith

-- On a closed port with a scripted exchange for the request of parameter 1001, to an address with the MAC
-- `mac`, the detection settles on Std Bus with no attempts, for any reply that is a frame whose payload
-- decodes, with any garbage without 0x55 of at most 256 bytes ahead of it. It leaves the port open, with
-- one more write, and does not touch the Modbus transport.
pub detect_protocol-exchange :
    {F R : Type 0} (fl : Floats F) (modbus : Link Fake ModbusOp R) (s : Fake) (address mac : ℕ)
    (f : Frame) (w g wf : Bytes) (q : List (Bytes × ScriptedReply)) (r : ScriptedReply)
    (p : Payload F)
    → s.is_open ≡ false
    → addr_to_mac address ≡ ok mac
    → IsExchange fl (opened s) hardware_id_request mac f w g wf q r p
    → detect_protocol (fake_link fl) modbus address s ≡ (
      (ok stdbus_kind, []),
      with_buffer (record (opened s) { queue = q; writes = s.writes ++ (w ∷ []) }) [],
    )
unfolding detect_protocol try_stdbus first_try conclude
detect_protocol-exchange fl modbus s address mac f w g wf q r p shut am h =
    rw (in_range address mac am)
      (rw (session_exchange fl s address mac f w g wf q r p shut am h) refl)
