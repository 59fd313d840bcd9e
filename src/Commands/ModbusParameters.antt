-- ===== src/Commands/ModbusParameters.antt =====
-- src/watlowlib/commands/parameters.py: `_ReadParameterModbus` and `_WriteParameterModbus`.
use watlowlib.Base.{ℕ, ◌%◌, ◌/◌, List, [], ◌∷◌, if◌then◌else◌, Bytes, none, some, ◌==◌, ltb}
use watlowlib.Base.Int.{ℤ, pos, negsuc}
use watlowlib.Errors.{
  validation_error, protocol_error, protocol_unsupported_error, overflow_error, is_a,
}
use watlowlib.Result.{Result, ok, err, ◌>>=◌, ◌>>◌}
use watlowlib.Exec.{rethrow}
use watlowlib.StdBus.Value.{Value, int, float, str, raw, Floats}
use watlowlib.Modbus.Ops.{ModbusOp, construct, write_register, write_registers, differs}
use watlowlib.Modbus.Tables.{Orders, ModbusEncoding, encoding_for}
use watlowlib.Modbus.Codec.{Registers, decode_words, encode_value_to_words}
use watlowlib.Registry.Spec.{Name, ParameterSpec, Arith, validate_writable, validate_value}
use watlowlib.Registry.Index.{ParameterRegistry}
use watlowlib.Commands.Command.{Variant}
use watlowlib.Commands.Request.{
  ReadParameterRequest, WriteParameterRequest, ParameterEntry, resolve_request,
}

-- `_modbus_register_address`
unfoldable pub modbus_register_address : {F : Type 0} → ParameterSpec F → ℤ → Result ℤ
modbus_register_address spec n =
    if differs n spec.default_instance
    then err protocol_unsupported_error
    else ok spec.relative_addr

-- `w.to_bytes(2, "big")` of each word.
unfoldable pub word_bytes : List ℤ → Result Bytes
word_bytes [] = ok []
word_bytes (negsuc n ∷ ws) = err overflow_error
word_bytes (pos n ∷ ws) =
    let rest = word_bytes ws in
    if ltb n 65536 then (rest >>= λ bs. ok (n / 256 ∷ n % 256 ∷ bs)) else err overflow_error

module _ {F W B : Type 0} (orders : Orders W B) where
  -- `spec.register_count or None` is `None` for 0, which `encoding_for` takes as absent all the same.
  unfoldable pub encoding_of : ParameterSpec F → Result (ModbusEncoding W B)
  unfolding encoding_for
  encoding_of spec = encoding_for orders spec.data_type spec.word_order (some spec.register_count)

module _ {F : Type 0} (fl : Floats F) (ar : Arith F) where
  -- `value * spec.scale` of a number, unless the scale is 1.0.
  unfoldable pub scale_up : ParameterSpec F → Value F → Result (Value F)
  scale_up spec (str s) = ok (str s)
  scale_up spec (raw b) = ok (raw b)
  scale_up spec (float x) =
      if ar.eq spec.scale ar.one then ok (float x) else ok (float (ar.mul x spec.scale))
  scale_up spec (int z) =
      if ar.eq spec.scale ar.one
      then ok (int z)
      else (fl.of_int z >>= λ x. ok (float (ar.mul x spec.scale)))

  -- `round(wire_value / spec.scale)` of a number, unless the scale is 1.0.
  unfoldable pub scale_down : ParameterSpec F → Value F → Result (Value F)
  scale_down spec (str s) = ok (str s)
  scale_down spec (raw b) = ok (raw b)
  scale_down spec (float x) =
      if ar.eq spec.scale ar.one
      then ok (float x)
      else (ar.round_div x spec.scale >>= λ n. ok (int n))
  scale_down spec (int z) =
      if ar.eq spec.scale ar.one
      then ok (int z)
      else (fl.of_int z >>= λ x. ar.round_div x spec.scale >>= λ n. ok (int n))

-- The operation that writes words, by the register count.
unfoldable pub write_op : ℤ → ℕ → List ℤ → Result ModbusOp
write_op register count words =
    if count == 1
    then construct write_register register (pos 1) (some words)
    else construct write_registers register (pos count) (some words)

module _ {F W B : Type 0} (lower : Name → Name) (orders : Orders W B) where
  unfoldable pub encode_read : ParameterRegistry F → ReadParameterRequest → Result ModbusOp
  unfolding resolve_request encoding_of modbus_register_address
  encode_read r q = do
    spec ← resolve_request lower r q.target q.instance_id
    encoding ← encoding_of orders spec
    register ← modbus_register_address spec q.instance_id
    construct encoding.read_fn register (pos encoding.register_count) none

module _ {F W B : Type 0} (lower : Name → Name) (orders : Orders W B) (registers : Registers F W B)
    (fl : Floats F) (ar : Arith F) where
  unfoldable pub decode_read :
      List ℤ → ParameterRegistry F → ReadParameterRequest → Result (ParameterEntry F)
  unfolding resolve_request encoding_of scale_up word_bytes
  decode_read words r q = do
    spec ← resolve_request lower r q.target q.instance_id
    encoding ← encoding_of orders spec
    value ←
        rethrow (λ e. is_a e protocol_error) protocol_error
          (decode_words fl registers words spec.data_type encoding.word_order encoding.byte_order)
    scaled ← scale_up fl ar spec value
    bs ← word_bytes words
    ok (record { spec = spec; instance_id = q.instance_id; value = scaled; raw_bytes = bs })

  unfoldable pub encode_write : ParameterRegistry F → WriteParameterRequest F → Result ModbusOp
  unfolding resolve_request encoding_of modbus_register_address scale_down write_op
  encode_write r q = do
    spec ← resolve_request lower r q.target q.instance_id
    validate_writable spec
    validate_value fl ar spec q.value
    encoding ← encoding_of orders spec
    register ← modbus_register_address spec q.instance_id
    wire_value ← scale_down fl ar spec q.value
    words ←
        rethrow (λ e. is_a e protocol_error) validation_error
          (encode_value_to_words fl registers wire_value spec.data_type encoding.register_count
            encoding.word_order encoding.byte_order)
    write_op register encoding.register_count words

  unfoldable pub decode_write :
      List ℤ → ParameterRegistry F → WriteParameterRequest F → Result (ParameterEntry F)
  unfolding resolve_request
  decode_write words r q = do
    spec ← resolve_request lower r q.target q.instance_id
    ok (record { spec = spec; instance_id = q.instance_id; value = q.value; raw_bytes = [] })

  abbrev pub write_variant :
      Variant F (WriteParameterRequest F) ModbusOp (List ℤ) (ParameterEntry F)
  write_variant = record { encode = encode_write; decode = decode_write }

  abbrev pub read_variant : Variant F ReadParameterRequest ModbusOp (List ℤ) (ParameterEntry F)
  read_variant = record { encode = encode_read lower orders; decode = decode_read }
