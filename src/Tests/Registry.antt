-- ===== src/Tests/Registry.antt =====
-- The parameter registry and the parameter commands at a registry of three rows.
use watlowlib.Base.{
  ℕ, ◌≡◌, inl, inr, refl, arith, List, [], ◌∷◌, true, Bool, none, some, Option, ◌==◌, ltb,
}
use watlowlib.Base.Int.{pos}
use watlowlib.Errors.{validation_error, protocol_unsupported_error}
use watlowlib.Result.{ok, err}
use watlowlib.StdBus.Value.{int, type_u16}
use watlowlib.StdBus.Payload.{read_response, write_response, split_param, encode_read_request}
use watlowlib.Modbus.Ops.{read_holding}
use watlowlib.Modbus.Tables.{Orders, ModbusEncoding, encoding_for}
use watlowlib.Modbus.Codec.{Registers}
use watlowlib.Registry.Units.{dimensionless_kind}
use watlowlib.Registry.Spec.{ParameterSpec, Name, Arith, flag_r, read_only}
use watlowlib.Registry.Index.{
  ParameterRegistry, get_id, get_name, owners, rebind, build, by_id, resolve, resolve_id,
  resolve_name, with_decimal_places,
}
use watlowlib.Registry.Index.Tables.{UniqueIds}
use watlowlib.Registry.Index.Rescale.{rescale, map_result, with_decimal_places-resolve}
use watlowlib.Registry.Index.Build.{build-IsRegistry, build-resolve_name}
use watlowlib.Commands.Request.{ReadParameterRequest, WriteParameterRequest}
use watlowlib.Commands.StdBusParameters as StdBusParameters
use watlowlib.Commands.ModbusParameters as ModbusParameters
use watlowlib.Commands.Laws.{write_read_only, reply_entry, instance_zero}
use watlowlib.Tests.Fixtures.{whole_floats, reply_frame, reply_wire}

-- Names are written in lower case.
abbrev pub same_case : Name → Name
same_case n = n

abbrev pub row : ℕ → Name → Option ℕ → ParameterSpec ℕ
row i name decimal = record {
  parameter_id = i;
  name = name;
  aliases = [];
  data_type = type_u16;
  unit_kind = dimensionless_kind;
  rwes = flag_r;
  safety = read_only;
  cls = 0;
  member = 0;
  default_instance = pos 1;
  max_instance = pos 2;
  relative_addr = pos 27586;
  absolute_addr = pos 427587;
  register_count = 1;
  word_order = none;
  range_min = none;
  range_max = none;
  scale = 1;
  decimal_register = decimal;
}

-- Two rows that are both called "u", and a third one.
abbrev rows : List (ParameterSpec ℕ)
rows = row 8003 (117 ∷ []) none ∷ row 3005 (117 ∷ []) (some 606) ∷ row 4001 (112 ∷ []) none ∷ []

abbrev aliases : List (Name × Name)
aliases = (112 ∷ 118 ∷ [], 112 ∷ []) ∷ []

abbrev overrides : List (ℕ × Name)
overrides = (3005, 117 ∷ []) ∷ []

rows-UniqueIds : UniqueIds rows
rows-UniqueIds = ground arith

-- Scales are numbers of decimal places.
abbrev pub places : Arith ℕ
places = record {
  lt = ltb;
  eq = λ a b. a == b;
  ten_to_minus = λ n. n;
  one = 0;
  mul = λ a b. a;
  round_div = λ a b. ok (pos a);
}

overridden : get_id 3005 overrides ≡ some (117 ∷ [])
unfolding get_id
overridden = refl

owned : get_name (117 ∷ []) (owners same_case overrides) ≡ some 3005
unfolding get_name owners
owned = refl

-- "u" is the second row, although the first is called "u" too.
build-resolve_name_example :
    resolve_name same_case (build same_case rows aliases overrides) (117 ∷ [])
    ≡ ok (rebind aliases overrides (row 3005 (117 ∷ []) (some 606)))
build-resolve_name_example =
    build-resolve_name same_case rows aliases overrides (row 3005 (117 ∷ []) (some 606)) 117 []
      (117 ∷ []) rows-UniqueIds (inr (inl refl)) overridden owned refl

with_decimal_places-resolve_example :
    (r' : ParameterRegistry ℕ) × (with_decimal_places places
        (build same_case rows aliases overrides)
        606
        (pos 2)
      ≡ ok r')
    × ((i : ℕ)
        → resolve_id same_case r' i
          ≡ map_result
              (rescale places 606 2)
              (resolve_id same_case (build same_case rows aliases overrides) i))
    × ((k : Name)
        → resolve_name same_case r' k
          ≡ map_result
              (rescale places 606 2)
              (resolve_name same_case (build same_case rows aliases overrides) k))
with_decimal_places-resolve_example =
    with_decimal_places-resolve same_case places (build same_case rows aliases overrides) 606 2
      (build-IsRegistry same_case rows aliases overrides rows-UniqueIds)

abbrev pub small_registry : ParameterRegistry ℕ
small_registry = record {
  specs = row 4001 (112 ∷ []) none ∷ [];
  by_id = (4001, row 4001 (112 ∷ []) none) ∷ [];
  by_name = (112 ∷ [], row 4001 (112 ∷ []) none) ∷ [];
}

pub known : resolve_id same_case small_registry 4001 ≡ ok (row 4001 (112 ∷ []) none)
unfolding resolve_id get_id
known = refl

named : resolve same_case small_registry (by_id 4001) ≡ ok (row 4001 (112 ∷ []) none)
unfolding resolve resolve_id get_id
named = refl

abbrev orders : Orders Bool Bool
orders = record { high_low = true; big = true; word_order_of = λ label. none }

abbrev registers : Registers ℕ Bool Bool
registers = record { decode = λ t w b ws. ok (int (pos 0)); encode = λ t n w b v. ok (pos 0 ∷ []) }

abbrev write_request : WriteParameterRequest ℕ
write_request = record { target = by_id 4001; value = int (pos 75); instance_id = pos 1 }

write_read_only_example :
    (StdBusParameters.encode_write same_case whole_floats places small_registry write_request
      ≡ err validation_error)
    × (ModbusParameters.encode_write same_case orders registers whole_floats places small_registry
          write_request
        ≡ err validation_error)
write_read_only_example =
    write_read_only same_case small_registry orders registers whole_floats places write_request
      (row 4001 (112 ∷ []) none) named refl

abbrev read_request : ReadParameterRequest
read_request = record { target = by_id 4001; instance_id = pos 1 }

reply_entry_example :
    (StdBusParameters.decode_read same_case
        (record {
          frame = reply_frame;
          payload = read_response 4 1 1 (int (pos 75)) 1;
          raw_frame = reply_wire;
        })
        small_registry
        read_request
      ≡ ok (record {
        spec = row 4001 (112 ∷ []) none;
        instance_id = pos 1;
        value = int (pos 75);
        raw_bytes = reply_wire;
      }))
    × (StdBusParameters.decode_write same_case
          (record {
            frame = reply_frame;
            payload = write_response 4 1 1 (int (pos 75)) 1;
            raw_frame = reply_wire;
          })
          small_registry
          write_request
        ≡ ok (record {
          spec = row 4001 (112 ∷ []) none;
          instance_id = pos 1;
          value = int (pos 75);
          raw_bytes = reply_wire;
        }))
unfolding split_param
reply_entry_example =
    reply_entry same_case small_registry (row 4001 (112 ∷ []) none) reply_frame reply_wire 1
      (int (pos 75)) 1 read_request write_request known

abbrev encoding : ModbusEncoding Bool Bool
encoding = record {
  register_count = 1;
  word_order = true;
  byte_order = true;
  read_fn = read_holding;
}

laid_out : ModbusParameters.encoding_of orders (row 4001 (112 ∷ []) none) ≡ ok encoding
unfolding ModbusParameters.encoding_of encoding_for
laid_out = refl

instance_zero_example :
    (StdBusParameters.encode_read same_case small_registry
        (record { target = by_id 4001; instance_id = pos 0 })
      ≡ encode_read_request 4001 0)
    × (ModbusParameters.encode_read same_case orders small_registry
          (record { target = by_id 4001; instance_id = pos 0 })
        ≡ err protocol_unsupported_error)
instance_zero_example =
    instance_zero same_case small_registry orders (by_id 4001) (row 4001 (112 ∷ []) none) 1 2
      encoding named refl refl (omega arith) (omega arith) laid_out
