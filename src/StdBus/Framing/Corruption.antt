-- ===== src/StdBus/Framing/Corruption.antt =====
-- One changed byte between the preamble and the data checksum makes `decode_frame` raise.
use watlowlib.Base.{
  ℕ, suc, ◌+◌, ◌*◌, ◌/◌, ◌%◌, ◌<◌, ◌≡◌, ◌≢◌, ◌∙◌, refl, sym, ap, arith, [], ◌∷◌, ◌++◌, append-nil,
  Bytes, IsByte, IsBytes, length, get_or, length-append, bytes_eq, bytes_eq→eq, Bool-cases, inl,
  inr,
}
use watlowlib.Errors.{frame_error}
use watlowlib.Result.{ok, err}
use watlowlib.StdBus.Crc.{header_crc8, data_crc16, data_crc16_le_bytes}
use watlowlib.StdBus.Crc.Header.{header_crc8_injective}
use watlowlib.StdBus.Crc.Data.{data_crc16_injective}
use watlowlib.StdBus.Framing.{Frame, preamble, encode_frame, decode_frame, decode_body}
use watlowlib.StdBus.Framing.RoundTrip.{
  IsFrame, wire, plain_header, body_bytes, header_then, drop_header, encode_frame-wire,
  decode_header, take_payload, drop_payload, take_checksum, length_bytes,
}

bad_header :
    (x0 x1 x2 x3 x4 c : ℕ) (t : Bytes)
    → c ≢ header_crc8 (x0 ∷ x1 ∷ x2 ∷ x3 ∷ x4 ∷ [])
    → decode_frame (preamble ++ ((x0 ∷ x1 ∷ x2 ∷ x3 ∷ x4 ∷ []) ++ (c ∷ t))) ≡ err frame_error
unfolding decode_frame
bad_header x0 x1 x2 x3 x4 c t ne = ground arith

-- A header checksum that does not belong to the five header bytes is refused.
bad_header_list :
    (hs : Bytes) (c : ℕ) (t : Bytes)
    → length hs ≡ 5
    → c ≢ header_crc8 hs
    → decode_frame (preamble ++ (hs ++ (c ∷ t))) ≡ err frame_error
bad_header_list (x0 ∷ x1 ∷ x2 ∷ x3 ∷ x4 ∷ []) c t five ne = bad_header x0 x1 x2 x3 x4 c t ne
bad_header_list _ c t five ne = absurd (omega arith)

-- Changing one of the five header bytes of an encoded frame makes `decode_frame` raise `FrameError`:
-- the bytes are those that `encode_frame` writes, with `b` in the place of `a`.
pub header_corruption :
    (f : Frame) (front back : Bytes) (a b : ℕ)
    → IsFrame f
    → plain_header f ≡ front ++ a ∷ back
    → IsBytes front
    → IsBytes back
    → IsByte a
    → IsByte b
    → a ≢ b
    → (post : Bytes) × (encode_frame f ≡ ok (preamble ++ ((front ++ a ∷ back) ++ post)))
      × (decode_frame (preamble ++ ((front ++ b ∷ back) ++ post)) ≡ err frame_error)
header_corruption f front back a b fits header hf hk ha hb ne = (
  header_crc8 (front ++ a ∷ back) ∷ body_bytes f.payload,
  encode_frame-wire f fits ∙ ap ok same_wire,
  bad_header_list (front ++ b ∷ back) _ _ five
      (λ e. ne (header_crc8_injective front back a b hf hk ha hb e)),
)
  where
    same_wire :
        wire f
        ≡ preamble
          ++ ((front ++ a ∷ back) ++ (header_crc8 (front ++ a ∷ back) ∷ body_bytes f.payload))
    same_wire =
        unfold wire in
        ap (λ (hs : Bytes). preamble ++ (hs ++ (header_crc8 hs ∷ body_bytes f.payload))) header

    five : length (front ++ b ∷ back) ≡ 5
    five =
        omega
          (arith, length-append front (b ∷ back), length-append front (a ∷ back), ap length header)

le_bytes_injective :
    (xs ys : Bytes)
    → data_crc16_le_bytes xs ≡ data_crc16_le_bytes ys
    → data_crc16 xs ≡ data_crc16 ys
unfolding data_crc16_le_bytes
le_bytes_injective xs ys e = omega (arith, ap (λ (l : Bytes). get_or l 0 0 + 256 * get_or l 1 0) e)

-- A payload whose checksum belongs to another payload is refused.
bad_payload :
    (ft d s hi lo c : ℕ) (p sent : Bytes)
    → 0 < length p
    → data_crc16 p ≢ data_crc16 sent
    → decode_body (header_then ft d s hi lo c ((p ++ data_crc16_le_bytes sent) ++ [])) (length p)
      ≡ err frame_error
unfolding decode_body
bad_payload ft d s hi lo c p sent pos ne =
    rw
      (
        drop_header ft d s hi lo c ((p ++ data_crc16_le_bytes sent) ++ []) (length p),
        drop_payload p (data_crc16_le_bytes sent) [],
        take_checksum sent [],
        take_payload p (data_crc16_le_bytes sent) [],
      )
      (elim (Bool-cases (bytes_eq (data_crc16_le_bytes sent) (data_crc16_le_bytes p))) [
        | inl same ↦ absurd (ne (le_bytes_injective p sent (sym (bytes_eq→eq _ _ same))))
        | inr differs ↦ ground (arith, differs)
      ])

-- The eight bytes ahead of the payload of `f`.
abbrev lead : Frame → Bytes
lead f = preamble ++ (plain_header f ++ (header_crc8 (plain_header f) ∷ []))

wire_payload :
    (f : Frame)
    → 0 < length f.payload
    → wire f ≡ lead f ++ (f.payload ++ data_crc16_le_bytes f.payload)
unfolding wire
wire_payload f pos = ap (λ (r : Bytes). lead f ++ r) (filled f.payload pos)
  where
    filled : (p : Bytes) → 0 < length p → body_bytes p ≡ p ++ data_crc16_le_bytes p
    filled [] k = elim k [ ]
    filled (b ∷ bs) k = unfold body_bytes in refl

-- A changed payload of the same length behind the header of `f`, with the checksum of `sent`.
swapped_payload :
    (f : Frame) (p sent : Bytes)
    → IsFrame f
    → length p ≡ length f.payload
    → 0 < length p
    → data_crc16 p ≢ data_crc16 sent
    → decode_frame (lead f ++ (p ++ data_crc16_le_bytes sent)) ≡ err frame_error
swapped_payload f p sent fits same pos ne =
    decode_header f.frame_type f.dst f.src (length f.payload / 256) (length f.payload % 256)
      (header_crc8 (plain_header f)) (p ++ data_crc16_le_bytes sent) refl
    ∙ ap (decode_body (lead f ++ (p ++ data_crc16_le_bytes sent)))
        (length_bytes (length f.payload) fits.short ∙ sym same)
    ∙ (rw append-nil at (
        bad_payload f.frame_type f.dst f.src (length f.payload / 256) (length f.payload % 256)
          (header_crc8 (plain_header f)) p sent pos ne))

-- Changing one payload byte of an encoded frame makes `decode_frame` raise `FrameError`: the bytes
-- are those that `encode_frame` writes, with `b` in the place of `a`.
pub payload_corruption :
    (f : Frame) (front back : Bytes) (a b : ℕ)
    → IsFrame f
    → f.payload ≡ front ++ a ∷ back
    → IsBytes back
    → IsByte a
    → IsByte b
    → a ≢ b
    → (pre : Bytes) × (post : Bytes) × (encode_frame f ≡ ok (pre ++ ((front ++ a ∷ back) ++ post)))
      × (decode_frame (pre ++ ((front ++ b ∷ back) ++ post)) ≡ err frame_error)
payload_corruption f front back a b fits payload hk ha hb ne = (
  lead f,
  data_crc16_le_bytes f.payload,
  encode_frame-wire f fits
      ∙ ap ok (
          wire_payload f (omega (arith, size a, ap length payload))
          ∙ ap (λ (p : Bytes). lead f ++ (p ++ data_crc16_le_bytes f.payload)) payload),
  swapped_payload f (front ++ b ∷ back) f.payload fits
      (omega (arith, size a, size b, ap length payload)) (omega (arith, size b))
      (λ e. ne (data_crc16_injective front back a b hk ha hb (sym (e ∙ ap data_crc16 payload)))),
)
  where
    size : (x : ℕ) → length (front ++ x ∷ back) ≡ length front + suc (length back)
    size x = length-append front (x ∷ back)
