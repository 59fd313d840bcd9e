-- ===== src/Tests/Loading.antt =====
-- Units, ranges, rows and part numbers.
use watlowlib.Base.{
  ℕ, ◌+◌, ◌*◌, ◌-◌, ◌≡◌, refl, arith, List, [], ◌∷◌, true, ◌&&◌, none, some, leb, ◌==◌, All,
  if◌then◌else◌,
}
use watlowlib.Base.Int.{ℤ, pos}
use watlowlib.Base.Text.{codes}
use watlowlib.Errors.{value_error}
use watlowlib.Result.{ok, err}
use watlowlib.Registry.Units.{temperature_kind, celsius, alias, coerce_unit}
use watlowlib.Registry.Families.{
  pm, PartNumber, pm_comms_code, pm_comms_supports_modbus, detail, capabilities_for_part_number,
  classify_family, decode_pm, pm_part_re, decode_part_number,
}
use watlowlib.Registry.Families.Capabilities.{has_modbus-capabilities_for_part_number}
use watlowlib.Registry.Families.PartNumbers.{IsPartNumber, decode_part_number-written}
use watlowlib.Registry.Range.{Classes, parse_range, range_re, number}
use watlowlib.Registry.Range.Cut.{IsAscii, parse_range_cut}
use watlowlib.Registry.Spec.{ParameterSpec, flag_rwes, persistent, safety_from_rwes}
use watlowlib.StdBus.Value.{type_float}
use watlowlib.Registry.Index.{build}
use watlowlib.Registry.Index.Tables.{IsRegistry}
use watlowlib.Registry.Rows.{whole, text, Conversions, Row, item, to_int, coerce_int, int_or_one}
use watlowlib.Registry.Loader.{
  load_parameters, load_from, keep, build_spec, typed_spec, spec_if, spec_of, data_type_of, rwes_of,
  unit_kind_of, name_of, canonical_name, scale_of, decimal_register_of, register_count_for,
}
use watlowlib.Registry.Loader.Unique.{IsLoaded, load_parameters-IsRegistry}
use watlowlib.Tests.Fixtures.{whole_floats}

abbrev to_lower : ℕ → ℕ
to_lower c = if leb b'A' c && leb c b'Z' then c + 32 else c

abbrev lower : List ℕ → List ℕ
lower [] = []
lower (c ∷ cs) = to_lower c ∷ lower cs

abbrev unchanged : List ℕ → List ℕ
unchanged t = t

kelvin_like : coerce_unit unchanged lower (alias (codes "Celsius")) ≡ ok celsius
unfolding coerce_unit
kelvin_like = refl

abbrev part : PartNumber
part = decode_part_number unchanged unchanged (codes "PM3R1CA-BAAAAAA")

part_speaks_modbus : pm_comms_supports_modbus part ≡ true
unfolding pm_comms_supports_modbus pm_comms_code decode_part_number classify_family decode_pm
    pm_part_re
part_speaks_modbus = refl

has_modbus-capabilities_for_part_number_example :
    (capabilities_for_part_number part).has_modbus ≡ pm_comms_supports_modbus part
has_modbus-capabilities_for_part_number_example = has_modbus-capabilities_for_part_number part

part_chars : IsPartNumber b'3' b'R' b'1' b'C' b'A' b'B' (codes "AAAAAA")
part_chars = record {
  size_char = refl;
  control_char = refl;
  power_char = refl;
  output_1_char = refl;
  output_2_char = refl;
  first_char = refl;
  rest_chars = (refl, (refl, (refl, (refl, (refl, (refl, tt))))));
}

decode_part_number-written_example :
    (part.family ≡ pm)
    × (detail part (codes "case_size") ≡ b'3' ∷ [])
    × (detail part (codes "control_type") ≡ b'R' ∷ [])
    × (detail part (codes "power_input") ≡ b'1' ∷ [])
    × (detail part (codes "output_1") ≡ b'C' ∷ [])
    × (detail part (codes "output_2") ≡ b'A' ∷ [])
    × (detail part (codes "options") ≡ codes "BAAAAAA")
    × (pm_comms_code part ≡ some b'B')
decode_part_number-written_example =
    decode_part_number-written b'3' b'R' b'1' b'C' b'A' b'B' (codes "AAAAAA") part_chars unchanged
      unchanged (codes "PM3R1CA-BAAAAAA") refl

-- The digits as a number.
abbrev number_from : ℕ → List ℕ → ℕ
number_from n [] = n
number_from n (c ∷ cs) = number_from (n * 10 + (c - b'0')) cs

abbrev ascii : Classes ℕ
ascii = record {
  is_digit = λ c. leb b'0' c && leb c b'9';
  is_space = λ c. c == 32;
  to_float = λ t. some (number_from 0 t);
}

ascii-IsAscii : IsAscii ascii
ascii-IsAscii = record {
  space_no_digit = refl;
  t_no_digit = refl;
  o_no_digit = refl;
  comma_no_digit = refl;
  minus_no_digit = refl;
  space_is_space = refl;
  t_no_space = refl;
  digit_no_space = λ d e. ground arith;
}

-- The range of the bundled row "1 to 3600 Seconds" ends at 360.
parse_range_cut_example : parse_range ascii (some (codes "1 to 3600 Seconds")) ≡ (some 1, some 360)
parse_range_cut_example =
    parse_range_cut ascii ascii-IsAscii b'1' b'3' b'6' b'0' b'0' (codes " Seconds") refl refl refl
      refl refl refl

abbrev conversions : Conversions ℕ
conversions = record {
  floats = whole_floats;
  classes = ascii;
  strip = unchanged;
  lower = lower;
  int_of_text = λ t. err value_error;
  float_of_text = λ t. err value_error;
  show_number = λ v. [];
  is_zero = λ x. x == 0;
  one = 1;
}

abbrev json_row : ℤ → Row ℕ
json_row i =
    (codes "parameter_id", whole i)
    ∷ (codes "name", text (codes "Control Loop - Set Point"))
    ∷ (codes "data_type", text (codes "IEEE Float"))
    ∷ (codes "unit_kind", text (codes "temperature"))
    ∷ (codes "rwes", text (codes "RWES"))
    ∷ (codes "range", text (codes "0 to 100"))
    ∷ (codes "relative_addr", text (codes "N/A"))
    ∷ (codes "max_instance", whole (pos 4))
    ∷ []

-- A row, a placeholder, and the first row again.
abbrev json_rows : List (Row ℕ)
json_rows =
    json_row (pos 7001) ∷ ((codes "data_type", text (codes "None")) ∷ []) ∷ json_row (pos 7001) ∷ []

abbrev first_row : ParameterSpec ℕ
first_row = record {
  parameter_id = 7001;
  name = codes "set_point";
  aliases = [];
  data_type = type_float;
  unit_kind = temperature_kind;
  rwes = flag_rwes;
  safety = persistent;
  cls = 0;
  member = 0;
  default_instance = pos 1;
  max_instance = pos 4;
  relative_addr = pos 0;
  absolute_addr = pos 0;
  register_count = 2;
  word_order = none;
  range_min = some 0;
  range_max = some 100;
  scale = 1;
  decimal_register = none;
}

loaded : load_parameters conversions json_rows ≡ ok (first_row ∷ [])
unfolding load_parameters load_from keep build_spec typed_spec spec_if spec_of data_type_of rwes_of
    item to_int unit_kind_of coerce_int int_or_one name_of canonical_name scale_of
    decimal_register_of register_count_for safety_from_rwes parse_range range_re number
loaded = refl

load_parameters-IsRegistry_example :
    IsRegistry (build unchanged (first_row ∷ []) [] []) × All IsLoaded (first_row ∷ [])
load_parameters-IsRegistry_example =
    load_parameters-IsRegistry conversions json_rows (first_row ∷ []) unchanged [] [] loaded
