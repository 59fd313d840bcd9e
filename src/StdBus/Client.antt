-- ===== src/StdBus/Client.antt =====
-- src/watlowlib/protocol/stdbus/client.py, `StdBusProtocolClient` over any transport.
use watlowlib.Base.{
  ℕ, zero, suc, ◌+◌, List, [], ◌∷◌, ◌++◌, Bool, true, false, Option, none, some, Bytes, length,
  get_or, bytes_eq, ltb, ◌==◌, if◌then◌else◌, bit_or,
}
use watlowlib.Base.Bits.{shl}
use watlowlib.Errors.{
  connection_error, watlow_frame_error, watlow_timeout_error, timeout_error, frame_error,
  value_error, is_a,
}
use watlowlib.Result.{Result, ok, err, stuck}
use watlowlib.Exec.{Exec, pure, raise, lift, except, rethrow, ◌>>=◌, ◌>>◌}
use watlowlib.Transport.{Transport}
use watlowlib.StdBus.Tables.{data_expecting_reply, host_mac, addr_to_mac}
use watlowlib.StdBus.Framing.{Frame, preamble, encode_frame, decode_frame}
use watlowlib.StdBus.Value.{Floats}
use watlowlib.StdBus.Payload.{Payload, decode_payload}
pub mod Scan
pub mod Wire
pub mod Execute

abbrev pub header_len : ℕ
header_len = 6

abbrev pub dcrc_len : ℕ
dcrc_len = 2

abbrev pub preamble_scan_limit : ℕ
preamble_scan_limit = 256

abbrev pub max_payload_len : ℕ
max_payload_len = 512

module _ {S : Type 0} (t : Transport S) where
  -- `if len(scanned) > _PREAMBLE_SCAN_LIMIT: raise …`, else go round again.
  unfoldable pub scan_limit : Bytes → Exec S (Option Bytes)
  scan_limit scanned =
      if ltb preamble_scan_limit (length scanned)
      then raise watlow_frame_error
      else pure (some scanned)

  -- One round of the preamble scan of `_read_frame`: `none` at the preamble, else what is scanned.
  unfoldable pub scan_round : Bytes → Exec S (Option Bytes)
  unfolding scan_limit
  scan_round scanned = do
    b ← t.read_exact 1
    if bytes_eq b (0x55 ∷ [])
        then (do
          b2 ← t.read_exact 1
          if bytes_eq b2 (0xff ∷ []) then pure none else scan_limit (scanned ++ (b ++ b2)))
        else scan_limit (scanned ++ b)

  -- The scan, with fuel.
  unfoldable pub scan : ℕ → Bytes → Exec S (Unit {0})
  scan zero scanned s = (stuck, s)
  scan (suc fuel) scanned s =
      (scan_round scanned >>= λ found s'. elim found [
        | none ↦ (ok tt, s')
        | some more ↦ scan fuel more s'
      ])
        s

  -- `_read_frame` behind the preamble.
  unfoldable pub read_rest : Exec S Bytes
  read_rest = do
    header ← t.read_exact header_len
    let plen = bit_or (shl (get_or header 3 0) 8) (get_or header 4 0)
    if plen == 0
        then pure (preamble ++ header)
        else if ltb max_payload_len plen
        then raise watlow_frame_error
        else do body ← t.read_exact (plen + dcrc_len); pure (preamble ++ (header ++ body))

  unfoldable pub read_frame : Exec S Bytes
  read_frame = do scan 257 []; read_rest

-- `StdBusReply`
pub record StdBusReply (F : Type 0) : Type 0 where
  pub frame : Frame
  pub payload : Payload F
  pub raw_frame : Bytes

-- The fields of a client: its transport, and whether it has been disposed of. The per-port lock and
-- logging are not modelled.
pub record Client (S : Type 0) : Type 0 where
  pub line : S
  pub disposed : Bool

unfoldable pub dispose : {S : Type 0} → Client S → Client S
dispose c = record c { disposed = true }

unfoldable pub request_frame : ℕ → Bytes → Frame
request_frame mac request = record {
  frame_type = data_expecting_reply;
  dst = mac;
  src = host_mac;
  payload = request;
}

module _ {F : Type 0} (fl : Floats F) where
  -- The two decoding steps of `execute`, with their handlers.
  unfoldable pub decode_reply : Bytes → Result (StdBusReply F)
  decode_reply bytes =
      elim (rethrow (λ e. is_a e frame_error) watlow_frame_error (decode_frame bytes)) [
        | ok frame ↦
            elim (rethrow (λ e. is_a e value_error) watlow_frame_error
              (decode_payload fl frame.payload)) [
                | ok payload ↦ ok (record { frame = frame; payload = payload; raw_frame = bytes })
                | err e ↦ err e
                | stuck ↦ stuck
              ]
        | err e ↦ err e
        | stuck ↦ stuck
      ]

module _ {S F : Type 0} (t : Transport S) (fl : Floats F) where
  -- The write and the read under `anyio.fail_after`, and the handler of `TimeoutError`.
  unfoldable pub round_trip : Bytes → Exec S Bytes
  round_trip wire =
      except (λ e. is_a e timeout_error) watlow_timeout_error do t.write wire; read_frame t

  -- `execute` of a client that has not been disposed of, on its transport.
  unfoldable pub transact : Bytes → ℕ → Exec S (StdBusReply F)
  unfolding round_trip decode_reply request_frame
  transact request address = do
    mac ← lift (addr_to_mac address)
    wire ← lift (encode_frame (request_frame mac request))
    bytes ← round_trip wire
    lift (decode_reply fl bytes)

  unfoldable pub execute : Bytes → ℕ → Exec (Client S) (StdBusReply F)
  unfolding transact
  execute request address c =
      if c.disposed
      then (err connection_error, c)
      else let (r, line) = transact request address c.line in (r, record c { line = line })
