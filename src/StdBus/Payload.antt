-- ===== src/StdBus/Payload.antt =====
-- src/watlowlib/protocol/stdbus/payload.py: the inner payload.
use watlowlib.Base.{
  ℕ, ◌+◌, ◌*◌, ◌/◌, ◌%◌, List, [], ◌∷◌, ◌++◌, Bool, ◌&&◌, ◌||◌, not, Bytes, length, drop, get_or,
  ltb, ◌==◌, if◌then◌else◌, bit_and,
}
use watlowlib.Errors.{
  Error, value_error, no_such_object_error, no_such_attribute_error, no_such_instance_error,
  protocol_error,
}
use watlowlib.Result.{Result, ok, err, ◌>>=◌, ◌>>◌, guard}
use watlowlib.StdBus.Tables.{
  dir_request, dir_response, fn_read, fn_write, code_no_such_object, code_no_such_attribute,
  code_no_such_instance,
}
use watlowlib.StdBus.Value.{Value, Floats}
use watlowlib.StdBus.Tlv.{encode_value, decode_value}
pub mod RoundTrip

-- The dataclasses `ReadRequest` (class, member, instance), `WriteRequest`, `ReadResponse`,
-- `WriteResponse` (also the value and its tag) and `ErrorResponse` (the code).
pub data Payload (F : Type 0) : Type 0 where
  read_request : ℕ → ℕ → ℕ → Payload F
  write_request read_response write_response : ℕ → ℕ → ℕ → Value F → ℕ → Payload F
  error_response : ℕ → Payload F

-- The exception that `raise_for_error_code` raises; it never returns.
unfoldable pub error_for_code : ℕ → Error
error_for_code code =
    if code == code_no_such_object
    then no_such_object_error
    else if code == code_no_such_attribute
    then no_such_attribute_error
    else if code == code_no_such_instance
    then no_such_instance_error
    else protocol_error

-- `divmod(param_id, 1000)`
unfoldable pub split_param : ℕ → ℕ × ℕ
split_param param_id = (param_id / 1000, param_id % 1000)

unfoldable pub join_param : ℕ → ℕ → ℕ
join_param cls member = cls * 1000 + member

-- `bytes([…])` raises unless every number is a byte.
unfoldable pub to_bytes : List ℕ → Result Bytes
to_bytes [] = ok []
to_bytes (b ∷ bs) =
    let rest = to_bytes bs in if ltb b 256 then (rest >>= λ r. ok (b ∷ r)) else err value_error

unfoldable pub encode_read_request : ℕ → ℕ → Result Bytes
unfolding split_param to_bytes
encode_read_request param_id instance_id =
    let (cls, member) = split_param param_id in
    to_bytes (dir_request ∷ fn_read ∷ 0x01 ∷ cls ∷ member ∷ instance_id ∷ [])

module _ {F : Type 0} (fl : Floats F) where
  unfoldable pub encode_write_request : ℕ → Value F → ℕ → ℕ → Result Bytes
  unfolding split_param to_bytes
  encode_write_request param_id value instance_id type_tag =
      let (cls, member) = split_param param_id in
      do
        head ← to_bytes (dir_request ∷ fn_write ∷ cls ∷ member ∷ instance_id ∷ [])
        tail ← encode_value fl type_tag value
        ok (head ++ tail)

  -- `decode_payload` from the test `function == FN_READ` on, by direction and function.
  unfoldable pub decode_read : ℕ → Bytes → Result (Payload F)
  decode_read direction p =
      if direction == dir_request
      then (if ltb (length p) 6 || not (get_or p 2 0 == 0x01)
          then err value_error
          else ok (read_request (get_or p 3 0) (get_or p 4 0) (get_or p 5 0)))
      else if ltb (length p) 7 || not (get_or p 2 0 == 0x01)
      then err value_error
      else do
        (value, tag, _) ← decode_value fl (drop 6 p)
        ok (read_response (get_or p 3 0) (get_or p 4 0) (get_or p 5 0) value tag)

  unfoldable pub decode_write : ℕ → Bytes → Result (Payload F)
  decode_write direction p = if ltb (length p) 6 then err value_error else do
    (value, tag, _) ← decode_value fl (drop 5 p)
    ok (
        if direction == dir_request
        then write_request (get_or p 2 0) (get_or p 3 0) (get_or p 4 0) value tag
        else write_response (get_or p 2 0) (get_or p 3 0) (get_or p 4 0) value tag)

  unfoldable pub decode_payload : Bytes → Result (Payload F)
  decode_payload p =
      let direction = get_or p 0 0 in
      let function = get_or p 1 0 in
      if ltb (length p) 2
      then err value_error
      else if not (direction == dir_request || direction == dir_response)
      then err value_error
      else if direction == dir_response && not (bit_and function 0x80 == 0)
      then (if length p == 2 then ok (error_response function) else err value_error)
      else if function == fn_read
      then decode_read direction p
      else if function == fn_write
      then decode_write direction p
      else err value_error
