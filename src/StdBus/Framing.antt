-- ===== src/StdBus/Framing.antt =====
-- src/watlowlib/protocol/stdbus/framing.py: the outer frame.
use watlowlib.Base.{
  ℕ, ◌+◌, ◌%◌, ◌≡◌, List, [], ◌∷◌, ◌++◌, Bytes, length, take, drop, get_or, bytes_eq, not, ltb,
  ◌==◌, if◌then◌else◌, bit_and, bit_or,
}
use watlowlib.Base.Bits.{shl, shr}
use watlowlib.Errors.{frame_error}
use watlowlib.Result.{Result, ok, err}
use watlowlib.StdBus.Crc.{header_crc8, data_crc16_le_bytes}
pub mod RoundTrip
pub mod Canonical
pub mod Corruption

abbrev pub preamble : Bytes
preamble = 0x55 ∷ 0xff ∷ []

pub record Frame : Type 0 where
  pub frame_type : ℕ
  pub dst : ℕ
  pub src : ℕ
  pub payload : Bytes

-- `bytes([frame_type & 0xFF, …, len & 0xFF])` in `encode_frame`
header_bytes : Frame → Bytes
header_bytes f =
    bit_and f.frame_type 0xff
    ∷ bit_and f.dst 0xff
    ∷ bit_and f.src 0xff
    ∷ bit_and (shr (length f.payload) 8) 0xff
    ∷ bit_and (length f.payload) 0xff
    ∷ []

unfoldable pub encode_frame : Frame → Result Bytes
unfolding header_bytes
encode_frame f =
    if ltb 0xffff (length f.payload)
    then err frame_error
    else let header = header_bytes f in
      let hcrc : Bytes = header_crc8 header ∷ [] in
      if length f.payload == 0
      then ok (preamble ++ (header ++ hcrc))
      else ok (preamble ++ (header ++ (hcrc ++ (f.payload ++ data_crc16_le_bytes f.payload))))

-- `Frame(frame_type, dst, src, payload)` in `decode_frame`
abbrev pub frame_of : Bytes → Bytes → Frame
frame_of buf payload = record {
  frame_type = get_or buf 2 0;
  dst = get_or buf 3 0;
  src = get_or buf 4 0;
  payload = payload;
}

-- `decode_frame` from the test `plen == 0` on.
unfoldable pub decode_body : Bytes → ℕ → Result Frame
decode_body buf plen =
    if plen == 0
    then ok (frame_of buf [])
    else if ltb (length buf) (8 + plen + 2)
    then err frame_error
    else let payload = take plen (drop 8 buf) in
      let dcrc = take 2 (drop (8 + plen) buf) in
      if not (bytes_eq dcrc (data_crc16_le_bytes payload))
      then err frame_error
      else ok (frame_of buf payload)

unfoldable pub decode_frame : Bytes → Result Frame
decode_frame buf =
    if ltb (length buf) 8
    then err frame_error
    else if not (bytes_eq (take 2 buf) preamble)
    then err frame_error
    else let plen = bit_or (shl (get_or buf 5 0) 8) (get_or buf 6 0) in
      if not (get_or buf 7 0 == header_crc8 (take 5 (drop 2 buf)))
      then err frame_error
      else decode_body buf plen
