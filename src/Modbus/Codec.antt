-- ===== src/Modbus/Codec.antt =====
-- src/watlowlib/protocol/modbus/codec.py: values and register words. `encode` and `decode` of
-- `anymodbus` are parameters.
use watlowlib.Base.{
  ℕ, ◌-◌, ◌*◌, ◌^◌, ◌%◌, List, [], ◌∷◌, Option, none, some, length, ltb, ◌==◌, if◌then◌else◌,
  get_or,
}
use watlowlib.Base.Int.{ℤ, pos, negsuc}
use watlowlib.Errors.{protocol_error, unicode_error, is_a}
use watlowlib.Result.{Result, ok, err, ◌>>=◌, ◌>>◌}
use watlowlib.Exec.{rethrow}
use watlowlib.StdBus.Value.{
  Value, int, float, str, raw, Floats, DataType, type_u8, type_u16, type_u32, type_s32, type_float,
  type_string, type_packed, type_s16,
}
use watlowlib.StdBus.Tlv.{encode_ascii}
pub mod RoundTrip

-- The members of `RegisterType` that the code names.
pub data RegisterType : Type 0 where
  float32 int32 uint32 uint16 int16 string : RegisterType

-- `encode` and `decode`; the register count of `encode` is given for a string only.
pub record Registers (F W B : Type 0) : Type 0 where
  pub decode : RegisterType → W → B → List ℤ → Result (Value F)
  pub encode : RegisterType → Option ℕ → W → B → Value F → Result (List ℤ)

-- `_REGISTER_TYPE`
abbrev pub register_type : DataType → Option (RegisterType × ℕ)
register_type type_float = some (float32, 2)
register_type type_s32 = some (int32, 2)
register_type type_u32 = some (uint32, 2)
register_type type_u16 = some (uint16, 1)
register_type type_s16 = some (int16, 1)
register_type type_packed = some (uint16, 1)
register_type type_u8 = none
register_type type_string = none

-- `z & (2 ** k - 1)`
abbrev pub low_bits : ℕ → ℤ → ℕ
low_bits k (pos n) = n % 2 ^ k
low_bits k (negsuc n) = 2 ^ k - 1 - n % 2 ^ k

unfoldable pub check_count : ℕ → ℕ → Result (Unit {0})
check_count got expected = if got == expected then ok tt else err protocol_error

module _ {F W B : Type 0} (fl : Floats F) (registers : Registers F W B) where
  -- `decode_words` for a number type other than U8.
  unfoldable pub decode_number : List ℤ → Option (RegisterType × ℕ) → W → B → Result (Value F)
  unfolding check_count
  decode_number words none word_order byte_order = err protocol_error
  decode_number words (some (t, expected)) word_order byte_order =
      check_count (length words) expected >> registers.decode t word_order byte_order words

  unfoldable pub decode_words : List ℤ → DataType → W → B → Result (Value F)
  unfolding decode_number check_count
  decode_words words type_u8 word_order byte_order =
      check_count (length words) 1 >> ok (int (pos (low_bits 8 (get_or words 0 (pos 0)))))
  decode_words words type_string word_order byte_order =
      rethrow (λ e. is_a e unicode_error) protocol_error
        (registers.decode string word_order byte_order words)
  decode_words words t word_order byte_order =
      decode_number words (register_type t) word_order byte_order

  -- `int(value)` and `float(value)` behind `isinstance(value, int | float)`.
  unfoldable pub int_of : Value F → Result ℤ
  int_of (int z) = ok z
  int_of (float x) = fl.to_int x
  int_of (str s) = err protocol_error
  int_of (raw b) = err protocol_error

  unfoldable pub float_of : Value F → Result F
  float_of (int z) = fl.of_int z
  float_of (float x) = ok x
  float_of (str s) = err protocol_error
  float_of (raw b) = err protocol_error

  -- The text of a STRING; bytes are decoded as ASCII.
  unfoldable pub text_of : Value F → Result (List ℕ)
  unfolding encode_ascii
  text_of (raw b) = rethrow (λ e. is_a e unicode_error) protocol_error (encode_ascii b)
  text_of (str s) = ok s
  text_of (int z) = err protocol_error
  text_of (float x) = err protocol_error

  unfoldable pub encode_string : Value F → ℕ → W → B → Result (List ℤ)
  unfolding text_of
  encode_string v register_count word_order byte_order = do
    text ← text_of v
    bs ← encode_ascii text
    if ltb (register_count * 2) (length bs)
        then err protocol_error
        else registers.encode string (some register_count) word_order byte_order (str text)

  unfoldable pub encode_value_to_words : Value F → DataType → ℕ → W → B → Result (List ℤ)
  unfolding encode_string int_of float_of
  encode_value_to_words v type_u8 count word_order byte_order =
      int_of v >>= λ z. ok (pos (low_bits 8 z) ∷ [])
  encode_value_to_words v type_string count word_order byte_order =
      encode_string v count word_order byte_order
  encode_value_to_words v type_u16 count word_order byte_order =
      int_of v >>= λ z. ok (pos (low_bits 16 z) ∷ [])
  encode_value_to_words v type_packed count word_order byte_order =
      int_of v >>= λ z. ok (pos (low_bits 16 z) ∷ [])
  encode_value_to_words v type_float count word_order byte_order =
      float_of v >>= λ x. registers.encode float32 none word_order byte_order (float x)
  encode_value_to_words v type_s32 count word_order byte_order =
      int_of v >>= λ z. registers.encode int32 none word_order byte_order (int z)
  encode_value_to_words v type_u32 count word_order byte_order =
      int_of v >>= λ z. registers.encode uint32 none word_order byte_order (int z)
  encode_value_to_words v type_s16 count word_order byte_order =
      int_of v >>= λ z. registers.encode int16 none word_order byte_order (int z)
