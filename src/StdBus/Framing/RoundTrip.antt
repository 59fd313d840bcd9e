-- ===== src/StdBus/Framing/RoundTrip.antt =====
-- Encoding and decoding of frames are inverse to one another.
use watlowlib.Base.{
  ℕ, suc, ◌+◌, ◌/◌, ◌%◌, ◌<◌, ◌≡◌, ◌∙◌, refl, sym, subst, arith, [], ◌∷◌, ◌++◌, append_assoc, Bytes,
  IsByte, length, take, drop, length-append, take-append, drop-append, bytes_eq_refl, ltb, ◌==◌,
  if◌then◌else◌, bit_and, bit_or,
}
use watlowlib.Base.Bits.{shl, bit_and_mask, bit_or-shl}
use watlowlib.Errors.{frame_error}
use watlowlib.Result.{ok, err}
use watlowlib.StdBus.Crc.{header_crc8, data_crc16_le_bytes}
use watlowlib.StdBus.Framing.{
  Frame, preamble, encode_frame, decode_frame, decode_body, header_bytes,
}

-- A frame whose fields fit the wire format.
pub record IsFrame (f : Frame) : Type 0 where
  pub type_byte : IsByte f.frame_type
  pub dst_byte : IsByte f.dst
  pub src_byte : IsByte f.src
  pub short : length f.payload < 65536

-- The header of such a frame, and the length that a reader takes from it.
abbrev pub plain_header : Frame → Bytes
plain_header f = f.frame_type ∷ f.dst ∷ f.src ∷ length f.payload / 256 ∷ length f.payload % 256 ∷ []

byte_mask : (x : ℕ) → IsByte x → bit_and x 0xff ≡ x
byte_mask x h = omega (arith, bit_and_mask 8 x)

header_bytes_plain : (f : Frame) → IsFrame f → header_bytes f ≡ plain_header f
unfolding header_bytes
header_bytes_plain f h = cc (
  byte_mask f.frame_type h.type_byte,
  byte_mask f.dst h.dst_byte,
  byte_mask f.src h.src_byte,
  byte_mask (length f.payload / 256) (omega (arith, h.short)),
  bit_and_mask 8 (length f.payload),
)

-- What follows the header checksum.
unfoldable pub body_bytes : Bytes → Bytes
body_bytes [] = []
body_bytes (b ∷ bs) = (b ∷ bs) ++ data_crc16_le_bytes (b ∷ bs)

-- The bytes of a frame on the wire.
unfoldable pub wire : Frame → Bytes
unfolding body_bytes
wire f = preamble ++ (plain_header f ++ (header_crc8 (plain_header f) ∷ body_bytes f.payload))

assembled :
    (header p : Bytes)
    → length p < 65536
    → (if ltb 0xffff (length p)
        then err frame_error
        else if length p == 0
        then ok (preamble ++ (header ++ (header_crc8 header ∷ [])))
        else ok (preamble ++ (header ++ (header_crc8 header ∷ (p ++ data_crc16_le_bytes p)))))
      ≡ ok (preamble ++ (header ++ (header_crc8 header ∷ body_bytes p)))
unfolding body_bytes
assembled header [] k = ground arith
assembled header (b ∷ bs) k = ground arith

-- A frame whose fields fit is encoded as its wire bytes.
pub encode_frame-wire : (f : Frame) → IsFrame f → encode_frame f ≡ ok (wire f)
unfolding encode_frame wire
encode_frame-wire f h =
    subst
      (λ (header : Bytes).
        (if ltb 0xffff (length f.payload)
          then err frame_error
          else if length f.payload == 0
          then ok (preamble ++ (header ++ (header_crc8 header ∷ [])))
          else ok (
              preamble
              ++ (header ++ (header_crc8 header ∷ (f.payload ++ data_crc16_le_bytes f.payload)))))
        ≡ ok (wire f))
      (sym (header_bytes_plain f h)) (assembled (plain_header f) f.payload h.short)

module _ (ft d s hi lo c : ℕ) (t : Bytes) where
  abbrev pub header_then : Bytes
  header_then = 0x55 ∷ 0xff ∷ ft ∷ d ∷ s ∷ hi ∷ lo ∷ c ∷ t

  pub decode_header :
      c ≡ header_crc8 (ft ∷ d ∷ s ∷ hi ∷ lo ∷ [])
      → decode_frame header_then ≡ decode_body header_then (bit_or (shl hi 8) lo)
  unfolding decode_frame
  decode_header e = ground (arith, e)

  pub drop_header : (n : ℕ) → drop (8 + n) header_then ≡ drop n t
  drop_header n = rw eight refl
    where
      eight : 8 + n ≡ suc (suc (suc (suc (suc (suc (suc (suc n)))))))
      eight = omega arith

pub length_bytes : (n : ℕ) → n < 65536 → bit_or (shl (n / 256) 8) (n % 256) ≡ n
length_bytes n h = omega (arith, bit_or-shl 8 (n / 256) (n % 256) (omega arith))

pub take_payload : (p q rest : Bytes) → take (length p) ((p ++ q) ++ rest) ≡ p
take_payload p q rest = rw (append_assoc p q rest) (take-append p (q ++ rest))

pub drop_payload : (p q rest : Bytes) → drop (length p) ((p ++ q) ++ rest) ≡ q ++ rest
drop_payload p q rest = rw (append_assoc p q rest) (drop-append p (q ++ rest))

pub length-le_bytes : (bs : Bytes) → length (data_crc16_le_bytes bs) ≡ 2
unfolding data_crc16_le_bytes
length-le_bytes bs = refl

pub take_checksum :
    (bs rest : Bytes) → take 2 (data_crc16_le_bytes bs ++ rest) ≡ data_crc16_le_bytes bs
unfolding data_crc16_le_bytes
take_checksum bs rest = refl

-- The part of `decode_frame` behind the header, on a payload, its checksum and what follows.
decode_payload_bytes :
    (ft d s hi lo c : ℕ) (p rest : Bytes)
    → 0 < length p
    → decode_body (header_then ft d s hi lo c ((p ++ data_crc16_le_bytes p) ++ rest)) (length p)
      ≡ ok (record { frame_type = ft; dst = d; src = s; payload = p })
unfolding decode_body
decode_payload_bytes ft d s hi lo c p rest pos =
    rw
      (
        drop_header ft d s hi lo c ((p ++ data_crc16_le_bytes p) ++ rest) (length p),
        drop_payload p (data_crc16_le_bytes p) rest,
        take_checksum p rest,
        take_payload p (data_crc16_le_bytes p) rest,
        bytes_eq_refl (data_crc16_le_bytes p),
      )
      (ground (
        arith,
        length-append (p ++ data_crc16_le_bytes p) rest,
        length-append p (data_crc16_le_bytes p),
        length-le_bytes p,
      ))

decode_body_lem :
    (ft d s hi lo c : ℕ) (p rest : Bytes)
    → decode_body (header_then ft d s hi lo c (body_bytes p ++ rest)) (length p)
      ≡ ok (record { frame_type = ft; dst = d; src = s; payload = p })
unfolding body_bytes
decode_body_lem ft d s hi lo c [] rest = unfold decode_body in refl
decode_body_lem ft d s hi lo c (b ∷ bs) rest =
    decode_payload_bytes ft d s hi lo c (b ∷ bs) rest (omega arith)

decode_frame-wire : (f : Frame) (rest : Bytes) → IsFrame f → decode_frame (wire f ++ rest) ≡ ok f
unfolding wire
decode_frame-wire f rest h =
    decode_header f.frame_type f.dst f.src (length f.payload / 256) (length f.payload % 256) _ _
      refl
    ∙ rw (length_bytes (length f.payload) h.short) (
        decode_body_lem f.frame_type f.dst f.src (length f.payload / 256) (length f.payload % 256) _
          f.payload rest)

-- Every frame whose fields fit is encoded, and decoding what was encoded, whatever bytes follow it,
-- gives the frame back.
pub decode-encode :
    (f : Frame) (rest : Bytes)
    → IsFrame f
    → (w : Bytes) × (encode_frame f ≡ ok w) × (decode_frame (w ++ rest) ≡ ok f)
decode-encode f rest h = (wire f, encode_frame-wire f h, decode_frame-wire f rest h)
