-- ===== src/StdBus/Tlv.antt =====
-- src/watlowlib/protocol/stdbus/tlv.py: tagged values.
use watlowlib.Base.{
  ℕ, zero, suc, ◌+◌, ◌-◌, ◌*◌, ◌^◌, ◌/◌, ◌%◌, List, [], ◌∷◌, ◌++◌, map, Bool, true, false, ◌&&◌,
  not, Bytes, length, take, drop, get_or, ltb, leb, ◌==◌, if◌then◌else◌, bit_or,
}
use watlowlib.Base.Bits.{shl}
use watlowlib.Base.Int.{ℤ, pos, negsuc, leb_ℤ}
use watlowlib.Errors.{value_error, type_error, unicode_error}
use watlowlib.Result.{Result, ok, err, ◌>>=◌}
use watlowlib.StdBus.Value.{Value, int, float, str, raw, Floats, be16, be32, from_be16, from_be32}
pub mod Reads
pub mod RoundTrip
pub mod Bounds

-- `class DataType`
abbrev pub tag_u8 : ℕ
tag_u8 = 0x01

abbrev pub tag_u16 : ℕ
tag_u16 = 0x03

abbrev pub tag_u32 : ℕ
tag_u32 = 0x05

abbrev pub tag_s32 : ℕ
tag_s32 = 0x06

abbrev pub tag_float : ℕ
tag_float = 0x08

abbrev pub tag_string : ℕ
tag_string = 0x09

abbrev pub tag_packed : ℕ
tag_packed = 0x0f

abbrev pub tag_s16 : ℕ
tag_s16 = 0x86

-- `text.encode("ascii")`
unfoldable pub encode_ascii : List ℕ → Result Bytes
encode_ascii [] = ok []
encode_ascii (c ∷ cs) =
    if ltb c 128 then (encode_ascii cs >>= λ rest. ok (c ∷ rest)) else err unicode_error

-- `raw.rstrip(b"\x00")`
unfoldable pub rstrip_nul : Bytes → Bytes
rstrip_nul [] = []
rstrip_nul (b ∷ bs) =
    let rest = rstrip_nul bs in if length rest == 0 && b == 0 then [] else b ∷ rest

-- `raw.decode("ascii", errors="replace")`
abbrev pub decode_ascii : Bytes → List ℕ
decode_ascii = map (λ b. if ltb b 128 then b else 0xfffd)

-- The pattern that `struct.pack(">i", n)` writes, for a number in range.
abbrev pub word32 : ℤ → ℕ
word32 (pos n) = n
word32 (negsuc n) = 2 ^ 32 - suc n

abbrev pub signed32 : ℕ → ℤ
signed32 w = if ltb w (2 ^ 31) then pos w else negsuc (2 ^ 32 - w - 1)

-- `0 <= n <= hi`
abbrev pub within : ℕ → ℤ → Bool
within hi z = leb_ℤ (pos 0) z && leb_ℤ z (pos hi)

-- The pattern of a number in `0 <= n`.
abbrev pub magnitude : ℤ → ℕ
magnitude (pos n) = n
magnitude (negsuc n) = 0

module _ {F : Type 0} (fl : Floats F) where
  -- `int(value)` and `float(value)` of a number.
  unfoldable pub to_int : Value F → Result ℤ
  to_int (int z) = ok z
  to_int (float x) = fl.to_int x
  to_int (str s) = err type_error
  to_int (raw bs) = err type_error

  unfoldable pub to_float : Value F → Result F
  to_float (int z) = fl.of_int z
  to_float (float x) = ok x
  to_float (str s) = err type_error
  to_float (raw bs) = err type_error

  -- The branch `type_tag == DataType.STRING` of `encode_value`.
  unfoldable pub encode_text : Value F → Result Bytes
  unfolding encode_ascii
  encode_text (str s) = do
    b ← encode_ascii s
    if ltb 0xff (length b) then err value_error else ok (tag_string ∷ length b ∷ b)
  encode_text (raw b) =
      if ltb 0xff (length b) then err value_error else ok (tag_string ∷ length b ∷ b)
  encode_text (int z) = err type_error
  encode_text (float x) = err type_error

  unfoldable pub is_text : Value F → Bool
  is_text (str s) = true
  is_text (raw b) = true
  is_text (int z) = false
  is_text (float x) = false

  -- A branch of `encode_value` for an integer type.
  unfoldable pub encode_int : Bool → Bytes → Result Bytes
  encode_int fits bs = if fits then ok bs else err value_error

  -- The branches of `encode_value` for numbers.
  unfoldable pub encode_number : ℕ → Value F → Result Bytes
  unfolding to_int to_float encode_int
  encode_number tag v =
      if tag == tag_float
      then (to_float v >>= λ x. fl.pack x >>= λ bs. ok (tag_float ∷ bs))
      else if tag == tag_u8
      then (to_int v >>= λ n. encode_int (within 0xff n) (tag_u8 ∷ magnitude n ∷ []))
      else if tag == tag_u16
      then (to_int v >>= λ n. encode_int (within 0xffff n) (tag_u16 ∷ be16 (magnitude n)))
      else if tag == tag_u32
      then (to_int v >>= λ n. encode_int (within 0xffffffff n) (tag_u32 ∷ be32 (magnitude n)))
      else if tag == tag_s32
      then (to_int v >>= λ n.
          encode_int (leb_ℤ (negsuc (2 ^ 31 - 1)) n && leb_ℤ n (pos (2 ^ 31 - 1)))
            (tag_s32 ∷ be32 (word32 n)))
      else if tag == tag_packed
      then (to_int v >>= λ n. encode_int (within 0xffff n) (tag_packed ∷ 0x01 ∷ be16 (magnitude n)))
      else err value_error

  unfoldable pub encode_value : ℕ → Value F → Result Bytes
  unfolding encode_text is_text encode_number
  encode_value tag v =
      if tag == tag_string
      then encode_text v
      else if is_text v
      then err type_error
      else encode_number tag v

  -- The loop of `decode_value` over the words of a wide value.
  unfoldable pub wide : ℕ → Bytes → ℕ → ℕ
  wide zero bs v = v
  wide (suc n) bs v =
      wide n (drop 2 bs) (bit_or (shl v 16) (from_be16 (get_or bs 0 0) (get_or bs 1 0)))

  -- What `decode_value` returns: the value, the tag, and the bytes consumed.
  abbrev pub Decoded : Type 0
  Decoded = Value F × ℕ × ℕ

  -- The first four bytes of the data, big-endian.
  abbrev pub word_at : Bytes → ℕ
  word_at buf = from_be32 (get_or buf 1 0) (get_or buf 2 0) (get_or buf 3 0) (get_or buf 4 0)

  -- The branches for STRING and PACKED of `decode_value`; the second byte is the count.
  unfoldable pub decode_text : Bytes → Result Decoded
  unfolding rstrip_nul
  decode_text buf =
      let n = get_or buf 1 0 in
      if ltb (length buf) 2
      then err value_error
      else if ltb (length buf) (2 + n)
      then err value_error
      else ok (str (decode_ascii (rstrip_nul (take n (drop 2 buf)))), tag_string, 2 + n)

  unfoldable pub decode_packed : Bytes → Result Decoded
  unfolding wide
  decode_packed buf =
      let n = get_or buf 1 0 in
      if ltb (length buf) 2
      then err value_error
      else if ltb (length buf) (2 + 2 * n)
      then err value_error
      else if n == 1
      then ok (int (pos (from_be16 (get_or buf 2 0) (get_or buf 3 0))), tag_packed, 4)
      else ok (int (pos (wide n (drop 2 buf) 0)), tag_packed, 2 + 2 * n)

  unfoldable pub decode_value : Bytes → Result Decoded
  unfolding decode_text decode_packed
  decode_value [] = err value_error
  decode_value (tag ∷ rest) =
      let buf : Bytes = tag ∷ rest in
      if tag == tag_u8
      then (if ltb (length buf) 2 then err value_error else ok (int (pos (get_or buf 1 0)), tag, 2))
      else if tag == tag_u16
      then (if ltb (length buf) 3
          then err value_error
          else ok (int (pos (from_be16 (get_or buf 1 0) (get_or buf 2 0))), tag, 3))
      else if tag == tag_u32
      then (if ltb (length buf) 5 then err value_error else ok (int (pos (word_at buf)), tag, 5))
      else if tag == tag_s32
      then (if ltb (length buf) 5
          then err value_error
          else ok (int (signed32 (word_at buf)), tag, 5))
      else if tag == tag_float
      then (if ltb (length buf) 5
          then err value_error
          else ok (float (fl.unpack (take 4 (drop 1 buf))), tag, 5))
      else if tag == tag_string
      then decode_text buf
      else if tag == tag_packed
      then decode_packed buf
      else err value_error
