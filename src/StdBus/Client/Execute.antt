-- ===== src/StdBus/Client/Execute.antt =====
-- `StdBusProtocolClient.execute`: what it does before any input or output, how its decoding fails, and
-- a whole exchange with a scripted device.
use watlowlib.Base.{
  ℕ, ◌≤◌, ◌≡◌, inl, inr, refl, ap, arith, List, [], ◌∷◌, ◌++◌, append-nil, false, some, Bytes,
  length, drop, get_or,
}
use watlowlib.Errors.{Error, watlow_frame_error, frame_error, value_error}
use watlowlib.Result.{Result, ok, err, stuck}
use watlowlib.Transport.{Transport}
use watlowlib.Transport.Fake.{
  Fake, fake_transport, with_buffer, IsReady, write, answer, resolve_reply, produce, ScriptedReply,
}
use watlowlib.StdBus.Tables.{addr_to_mac}
use watlowlib.StdBus.Framing.{Frame, encode_frame, decode_frame, decode_body}
use watlowlib.StdBus.Framing.RoundTrip.{IsFrame, decode-encode}
use watlowlib.StdBus.Value.{Floats}
use watlowlib.StdBus.Tlv.{decode_value}
use watlowlib.StdBus.Payload.{Payload, decode_payload, decode_read, decode_write}
use watlowlib.StdBus.Client.{Client, round_trip, decode_reply, request_frame, transact, execute}
use watlowlib.StdBus.Client.Scan.{Result-cases}
use watlowlib.StdBus.Client.Wire.{NoStart, read_frame-encode_frame}

-- The call returns, or raises the class `e`.
abbrev pub RaisesOnly : {A : Type 0} → Error → Result A → Type 0
RaisesOnly e (ok a) = Unit {0}
RaisesOnly e (err x) = x ≡ e
RaisesOnly e stuck = ⊥

decode_frame_raises : (buf : Bytes) → RaisesOnly frame_error (decode_frame buf)
unfolding decode_frame decode_body
decode_frame_raises buf = ground arith

module _ {F : Type 0} (fl : Floats F) where
  decode_value_raises : (buf : Bytes) → RaisesOnly value_error (decode_value fl buf)
  unfolding decode_value
  decode_value_raises [] = refl
  decode_value_raises (t ∷ rest) = ground arith

  decode_read_raises : (d : ℕ) (p : Bytes) → RaisesOnly value_error (decode_read fl d p)
  unfolding decode_read
  decode_read_raises d p = ground (arith, decode_value_raises (drop 6 p))

  decode_write_raises : (d : ℕ) (p : Bytes) → RaisesOnly value_error (decode_write fl d p)
  unfolding decode_write
  decode_write_raises d p = ground (arith, decode_value_raises (drop 5 p))

  decode_payload_raises : (p : Bytes) → RaisesOnly value_error (decode_payload fl p)
  unfolding decode_payload
  decode_payload_raises p =
      ground (arith, decode_read_raises (get_or p 0 0) p, decode_write_raises (get_or p 0 0) p)

  -- Decoding a reply returns it or raises `WatlowFrameError`, whatever the bytes: no other exception
  -- of the decoders comes through.
  decode_reply_raises : (bytes : Bytes) → RaisesOnly watlow_frame_error (decode_reply fl bytes)
  unfolding decode_reply
  decode_reply_raises bytes = elim (Result-cases (decode_frame bytes)) [
    | inl (f, e) ↦ ground (arith, e, decode_payload_raises f.payload)
    | inr (inl (x, e)) ↦ ground (arith, e, decode_frame_raises bytes)
    | inr (inr e) ↦ ground (arith, e, decode_frame_raises bytes)
  ]

-- The reply `encode_frame` writes for `f` is decoded to `f` and its payload.
decode_reply-wire :
    {F : Type 0} (fl : Floats F) (f : Frame) (w : Bytes) (p : Payload F)
    → IsFrame f
    → encode_frame f ≡ ok w
    → decode_payload fl f.payload ≡ ok p
    → decode_reply fl w ≡ ok (record { frame = f; payload = p; raw_frame = w })
unfolding decode_reply
decode_reply-wire fl f w p fits e dec = ground (arith, decoded, dec)
  where
    decoded : decode_frame w ≡ ok f
    decoded =
        let (w', e', d) = decode-encode f [] fits in
        let same : w' ≡ w = cc (e, e') in cc (d, ap decode_frame (append-nil w'), same)

module _ {F : Type 0} (fl : Floats F) (s : Fake) (ready : IsReady s) where
  -- `write`, with the reply the script has for these bytes.
  write_scripted :
      (w bytes : Bytes) (q : List (Bytes × ScriptedReply)) (r : ScriptedReply)
      → s.write_timeout ≡ false
      → resolve_reply w s ≡ (some r, q)
      → s.read_buffer ≡ []
      → produce r w ≡ bytes
      → write w s
        ≡ (ok tt, with_buffer (record s { queue = q; writes = s.writes ++ (w ∷ []) }) bytes)
  unfolding write answer
  write_scripted w bytes q r fast found empty made =
      rw found (ground (arith, ready.opened, fast, empty, made))

  exchange :
      (request g : Bytes) (address : ℕ) (q : List (Bytes × ScriptedReply)) (r : ScriptedReply)
      (f : Frame) (w wf : Bytes) (p : Payload F) (mac : ℕ)
      → s.write_timeout ≡ false
      → s.read_buffer ≡ []
      → addr_to_mac address ≡ ok mac
      → encode_frame (request_frame mac request) ≡ ok w
      → resolve_reply w s ≡ (some r, q)
      → produce r w ≡ g ++ (wf ++ [])
      → IsFrame f
      → length f.payload ≤ 512
      → encode_frame f ≡ ok wf
      → decode_payload fl f.payload ≡ ok p
      → NoStart g
      → length g ≤ 256
      → transact fake_transport fl request address s ≡ (
        ok (record { frame = f; payload = p; raw_frame = wf }),
        with_buffer (record s { queue = q; writes = s.writes ++ (w ∷ []) }) [],
      )
  unfolding transact round_trip
  exchange request g address q r f w wf p mac fast empty am ew found made fits small ef dec clean
        room =
      rw
        (
          am,
          ew,
          write_scripted w (g ++ (wf ++ [])) q r fast found empty made,
          read_frame-encode_frame (record s { queue = q; writes = s.writes ++ (w ∷ []) }) f wf g []
              (record { opened = ready.opened; reading = ready.reading }) fits small ef clean room,
          decode_reply-wire fl f wf p fits ef dec,
        )
        refl

-- What is asked of a scripted exchange: the port is open, no time-out is forced and nothing is left in
-- the read buffer; the request `w` is scripted with garbage and then the reply `wf` of a frame `f`
-- with a payload of at most 512 bytes that decodes to `p`.
pub record IsExchange {F : Type 0} (fl : Floats F) (s : Fake) (request : Bytes) (mac : ℕ)
    (f : Frame) (w g wf : Bytes) (q : List (Bytes × ScriptedReply)) (r : ScriptedReply)
    (p : Payload F) : Type 0 where
  pub ready : IsReady s
  pub writing : s.write_timeout ≡ false
  pub empty : s.read_buffer ≡ []
  pub requested : encode_frame (request_frame mac request) ≡ ok w
  pub found : resolve_reply w s ≡ (some r, q)
  pub made : produce r w ≡ g ++ (wf ++ [])
  pub frame_fits : IsFrame f
  pub small : length f.payload ≤ 512
  pub replied : encode_frame f ≡ ok wf
  pub decoded : decode_payload fl f.payload ≡ ok p
  pub clean : NoStart g
  pub room : length g ≤ 256

-- A client that has not been disposed of and whose address has the MAC `mac`, on a scripted exchange,
-- writes the encoded request once, skips the garbage, and returns the frame that was encoded, its
-- decoded payload and its raw bytes; nothing is left in the read buffer.
pub execute_exchange :
    {F : Type 0} (fl : Floats F) (c : Client Fake) (request : Bytes) (address mac : ℕ) (f : Frame)
    (w g wf : Bytes) (q : List (Bytes × ScriptedReply)) (r : ScriptedReply) (p : Payload F)
    → c.disposed ≡ false
    → addr_to_mac address ≡ ok mac
    → IsExchange fl c.line request mac f w g wf q r p
    → execute fake_transport fl request address c ≡ (
      ok (record { frame = f; payload = p; raw_frame = wf }),
      record c {
        line = with_buffer (record c.line { queue = q; writes = c.line.writes ++ (w ∷ []) }) [];
      },
    )
unfolding execute
execute_exchange fl c request address mac f w g wf q r p live am h =
    rw
      (
        live,
        exchange fl c.line h.ready request g address q r f w wf p mac h.writing h.empty am
            h.requested h.found h.made h.frame_fits h.small h.replied h.decoded h.clean h.room,
      )
      refl
