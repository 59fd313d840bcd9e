-- ===== src/Commands/StdBusParameters.antt =====
-- src/watlowlib/commands/parameters.py: `_ReadParameterStdBus` and `_WriteParameterStdBus`.
use watlowlib.Base.{ℕ, Bool, true, false, if◌then◌else◌, Bytes}
use watlowlib.Base.Int.{pos}
use watlowlib.Errors.{validation_error, protocol_error, is_a}
use watlowlib.Result.{Result, ok, err, ◌>>=◌, ◌>>◌}
use watlowlib.Exec.{rethrow}
use watlowlib.StdBus.Value.{
  Value, int, float, str, raw, Floats, DataType, tag_of, type_u8, type_u16, type_u32, type_s32,
  type_float, type_string, type_packed, type_s16,
}
use watlowlib.StdBus.Tlv.{magnitude}
use watlowlib.StdBus.Payload.{
  read_request, write_request, read_response, write_response, error_response, error_for_code,
  join_param, encode_read_request, encode_write_request,
}
use watlowlib.StdBus.Client.{StdBusReply}
use watlowlib.Registry.Spec.{Name, ParameterSpec, Arith, validate_writable, validate_value}
use watlowlib.Registry.Index.{ParameterRegistry, resolve_id}
use watlowlib.Commands.Command.{Variant}
use watlowlib.Commands.Request.{
  ReadParameterRequest, WriteParameterRequest, ParameterEntry, resolve_request,
}

abbrev pub is_string : DataType → Bool
is_string type_string = true
is_string type_u8 = false
is_string type_u16 = false
is_string type_u32 = false
is_string type_s32 = false
is_string type_float = false
is_string type_packed = false
is_string type_s16 = false

module _ {F : Type 0} (lower : Name → Name) where
  -- The entry of a reply's selector and value.
  unfoldable pub entry_of :
      StdBusReply F → ParameterRegistry F → ℕ → ℕ → ℕ → Value F → Result (ParameterEntry F)
  entry_of reply r cls member instance_id value =
      rethrow (λ e. is_a e validation_error) protocol_error
        (resolve_id lower r (join_param cls member))
      >>= λ spec. ok (record {
        spec = spec;
        instance_id = pos instance_id;
        value = value;
        raw_bytes = reply.raw_frame;
      })

  unfoldable pub decode_read :
      StdBusReply F → ParameterRegistry F → ReadParameterRequest → Result (ParameterEntry F)
  unfolding entry_of
  decode_read reply r q = elim reply.payload [
    | error_response code ↦ err (error_for_code code)
    | read_response cls member n value tag ↦ entry_of reply r cls member n value
    | read_request cls member n ↦ err protocol_error
    | write_request cls member n value tag ↦ err protocol_error
    | write_response cls member n value tag ↦ err protocol_error
  ]

  unfoldable pub decode_write :
      StdBusReply F → ParameterRegistry F → WriteParameterRequest F → Result (ParameterEntry F)
  unfolding entry_of
  decode_write reply r q = elim reply.payload [
    | error_response code ↦ err (error_for_code code)
    | write_response cls member n value tag ↦ entry_of reply r cls member n value
    | read_request cls member n ↦ err protocol_error
    | write_request cls member n value tag ↦ err protocol_error
    | read_response cls member n value tag ↦ err protocol_error
  ]

  -- The instance that goes on the wire is that of the request, which `_resolve` lets through from 0 on.
  unfoldable pub encode_read : ParameterRegistry F → ReadParameterRequest → Result Bytes
  unfolding resolve_request
  encode_read r q = resolve_request lower r q.target q.instance_id >>= λ spec.
      encode_read_request spec.parameter_id (magnitude q.instance_id)

  abbrev is_str : Value F → Bool
  is_str (str s) = true
  is_str (int z) = false
  is_str (float x) = false
  is_str (raw b) = false

  unfoldable pub check_string : ParameterSpec F → Value F → Result (Unit {0})
  check_string spec value =
      if is_string spec.data_type
      then (if is_str value then ok tt else err validation_error)
      else ok tt

  abbrev pub read_variant : Variant F ReadParameterRequest Bytes (StdBusReply F) (ParameterEntry F)
  read_variant = record { encode = encode_read; decode = decode_read }

  module _ (fl : Floats F) (ar : Arith F) where
    unfoldable pub encode_write : ParameterRegistry F → WriteParameterRequest F → Result Bytes
    unfolding resolve_request check_string
    encode_write r q = do
      spec ← resolve_request lower r q.target q.instance_id
      validate_writable spec
      validate_value fl ar spec q.value
      check_string spec q.value
      encode_write_request fl spec.parameter_id q.value (magnitude q.instance_id)
          (tag_of spec.data_type)

    abbrev pub write_variant :
        Variant F (WriteParameterRequest F) Bytes (StdBusReply F) (ParameterEntry F)
    write_variant = record { encode = encode_write; decode = decode_write }
