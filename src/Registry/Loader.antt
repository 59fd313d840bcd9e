-- ===== src/Registry/Loader.antt =====
-- src/watlowlib/registry/parameters.py: `_build_spec` and `load_parameters`, from the rows that
-- `json.loads` returns on. Reading the file is not modelled, and neither are the fields `default` and
-- `family_hints`.
pub mod Unique
use watlowlib.Base.{
  ℕ, zero, suc, List, [], ◌∷◌, ◌++◌, Bool, true, false, ◌&&◌, ◌||◌, not, Option, none, some, ◌==◌,
  ltb, leb, bytes_eq, if◌then◌else◌,
}
use watlowlib.Base.Int.{ℤ, pos, negsuc}
use watlowlib.Base.Text.{codes, get_text, char_in}
use watlowlib.Errors.{
  Error, protocol_error, key_error, type_error, value_error, foreign_error, is_a,
}
use watlowlib.Result.{Result, ok, err, stuck, ◌>>=◌}
use watlowlib.StdBus.Value.{
  Floats, DataType, type_u8, type_u16, type_u32, type_s32, type_float, type_string, type_packed,
  type_s16,
}
use watlowlib.Registry.Rows.{
  Json, null, whole, real, text, Conversions, Row, natural, get, item, text_of, to_int, to_float,
  is_false, str_of, coerce_int, int_or_one,
}
use watlowlib.Registry.Units.{UnitKind, unit_kind_values}
use watlowlib.Registry.Range.{Classes, parse_range}
use watlowlib.Registry.Spec.{
  Name, RwesFlag, flag_r, flag_w, flag_rw, flag_rwe, flag_rwes, safety_from_rwes, Arith,
  ParameterSpec,
}

abbrev pub data_type_map : List (Name × DataType)
data_type_map =
    (codes "IEEE Float", type_float)
    ∷ (codes "signed 32-bit", type_s32)
    ∷ (codes "signed 16-bit", type_s16)
    ∷ (codes "unsigned 32-bit", type_u32)
    ∷ (codes "unsigned 16-bit", type_u16)
    ∷ (codes "2 - unsigned 16 bit", type_u16)
    ∷ (codes "unsigned 8-bit", type_u8)
    ∷ (codes "Short String", type_string)
    ∷ (codes "Enumeration", type_packed)
    ∷ (codes "Wide Enumeration", type_packed)
    ∷ []

abbrev pub rwes_normalise : List (Name × RwesFlag)
rwes_normalise =
    (codes "R", flag_r)
    ∷ (codes "W", flag_w)
    ∷ (codes "RW", flag_rw)
    ∷ (codes "R/W", flag_rw)
    ∷ (codes "RWE", flag_rwe)
    ∷ (codes "RWES", flag_rwes)
    ∷ []

unfoldable pub register_count_for : DataType → ℕ
register_count_for type_float = 2
register_count_for type_s32 = 2
register_count_for type_u32 = 2
register_count_for type_u16 = 1
register_count_for type_s16 = 1
register_count_for type_u8 = 1
register_count_for type_packed = 1
register_count_for type_string = 8

-- Behind the first " - ", if there is one.
abbrev after_separator : Name → Option Name
after_separator (c ∷ d ∷ e ∷ rest) =
    let later = after_separator (d ∷ e ∷ rest) in
    if c == 32 && (d == b'-' && e == 32) then some rest else later
after_separator _ = none

abbrev is_word : ℕ → Bool
is_word c = (leb b'a' c && leb c b'z') || ((leb b'A' c && leb c b'Z') || (leb b'0' c && leb c b'9'))

-- `re.sub(r"[^a-zA-Z0-9]+", "_", raw)`; is the character before one that was replaced?
abbrev underscored : Bool → Name → Name
underscored gap [] = []
underscored gap (c ∷ rest) =
    let kept = underscored false rest in
    let skipped = underscored true rest in
    if is_word c then c ∷ kept else if gap then skipped else b'_' ∷ skipped

-- `.strip("_")`, where no two underscores stand together.
abbrev drop_last : Name → Name
drop_last [] = []
drop_last (c ∷ []) = if c == b'_' then [] else c ∷ []
drop_last (c ∷ d ∷ rest) = c ∷ drop_last (d ∷ rest)

abbrev drop_first : Name → Name
drop_first [] = []
drop_first (c ∷ rest) = if c == b'_' then rest else c ∷ rest

abbrev spaces_underscored : Name → Name
spaces_underscored [] = []
spaces_underscored (c ∷ rest) = (if c == 32 then b'_' else c) ∷ spaces_underscored rest

abbrev or_else : Name → Name → Name
or_else [] other = other
or_else (c ∷ rest) other = c ∷ rest

unfoldable pub canonical_name : (Name → Name) → Name → Name
canonical_name lower raw =
    let tail : Name = elim (after_separator raw) [ none ↦ raw | some rest ↦ rest ] in
    or_else (lower (drop_last (drop_first (underscored false tail))))
      (spaces_underscored (lower tail))

-- `parameter_id in seen_ids`
abbrev pub seen : ℕ → List ℕ → Bool
seen i [] = false
seen i (j ∷ js) = if i == j then true else seen i js

module _ {F : Type 0} where
  -- The loop of `load_parameters` from a row's spec on; `out` and `seen_ids` hold what came before.
  unfoldable pub keep :
      List (ParameterSpec F) → List ℕ → Option (ParameterSpec F) → List (ParameterSpec F) × List ℕ
  keep out seen_ids none = (out, seen_ids)
  keep out seen_ids (some spec) =
      if seen spec.parameter_id seen_ids
      then (out, seen_ids)
      else (out ++ (spec ∷ []), spec.parameter_id ∷ seen_ids)

module _ {F : Type 0} where
  -- `_DATA_TYPE_MAP` of `raw["data_type"]`; "None" is no key of it.
  unfoldable pub data_type_of : Json F → Option DataType
  data_type_of (text t) = get_text t data_type_map
  data_type_of null = none
  data_type_of (whole z) = none
  data_type_of (real x) = none

  unfoldable pub unit_kind_of : Json F → Result UnitKind
  unit_kind_of (text t) = elim (get_text t unit_kind_values) [
    | none ↦ err protocol_error
    | some k ↦ ok k
  ]
  unit_kind_of null = err protocol_error
  unit_kind_of (whole z) = err protocol_error
  unit_kind_of (real x) = err protocol_error

module _ {F : Type 0} (cv : Conversions F) where
  -- `(raw.get("rwes") or "").strip()`, normalised; a number has no `strip`.
  unfoldable pub rwes_of : Json F → Result (Option RwesFlag)
  rwes_of v =
      if is_false cv v
      then ok none
      else elim v [ text t ↦ ok (get_text (cv.strip t) rwes_normalise) | _ ↦ err foreign_error ]

  -- `str(raw_canonical) if raw_canonical else _canonical_name(str(raw["name"]))`
  unfoldable pub name_of : Row F → Result Name
  unfolding item
  name_of row =
      let given = get row (codes "canonical") in
      if is_false cv given
      then (item row (codes "name") >>= λ v. ok (canonical_name cv.lower (str_of cv v)))
      else ok (str_of cv given)

  unfoldable pub scale_of : Json F → Result F
  scale_of v = if is_false cv v then ok cv.one else to_float cv v

  unfoldable pub decimal_register_of : Json F → Result (Option ℕ)
  decimal_register_of null = ok none
  decimal_register_of v = to_int cv v >>= natural >>= λ n. ok (some n)

  -- `_build_spec` from the data type and the flag on.
  unfoldable pub spec_of : Row F → DataType → RwesFlag → Result (ParameterSpec F)
  spec_of row data_type rwes = do
    parameter_id ← item row (codes "parameter_id") >>= to_int cv >>= natural
    unit_kind ← unit_kind_of (get row (codes "unit_kind"))
    cls ← coerce_int cv (get row (codes "class_id")) >>= natural
    member ← coerce_int cv (get row (codes "member_id")) >>= natural
    default_instance ← int_or_one cv (get row (codes "instance_id"))
    max_instance ← int_or_one cv (get row (codes "max_instance"))
    relative_addr ← coerce_int cv (get row (codes "relative_addr"))
    absolute_addr ← coerce_int cv (get row (codes "absolute_addr"))
    canonical ← name_of row
    scale ← scale_of (get row (codes "scale"))
    decimal_register ← decimal_register_of (get row (codes "decimal_register"))
    let (range_min, range_max) = parse_range cv.classes (text_of (get row (codes "range")))
    ok (record {
      parameter_id = parameter_id;
      name = canonical;
      aliases = [];
      data_type = data_type;
      unit_kind = unit_kind;
      rwes = rwes;
      safety = safety_from_rwes rwes;
      cls = cls;
      member = member;
      default_instance = default_instance;
      max_instance = max_instance;
      relative_addr = relative_addr;
      absolute_addr = absolute_addr;
      register_count = register_count_for data_type;
      word_order = none;
      range_min = range_min;
      range_max = range_max;
      scale = scale;
      decimal_register = decimal_register;
    })

  unfoldable pub spec_if : Row F → DataType → Option RwesFlag → Result (Option (ParameterSpec F))
  spec_if row data_type none = ok none
  spec_if row data_type (some rwes) = spec_of row data_type rwes >>= λ spec. ok (some spec)

  unfoldable pub typed_spec : Row F → Option DataType → Result (Option (ParameterSpec F))
  typed_spec row none = ok none
  typed_spec row (some data_type) = rwes_of (get row (codes "rwes")) >>= spec_if row data_type

  unfoldable pub build_spec : Row F → Result (Option (ParameterSpec F))
  unfolding typed_spec
  build_spec row = typed_spec row (data_type_of (get row (codes "data_type")))

  unfoldable pub load_from :
      List (Row F) → List (ParameterSpec F) → List ℕ → Result (List (ParameterSpec F))
  load_from [] out seen_ids = ok out
  load_from (row ∷ rows) out seen_ids = build_spec row >>= λ spec.
      load_from rows (keep out seen_ids spec).0 (keep out seen_ids spec).1

  unfoldable pub load_parameters : List (Row F) → Result (List (ParameterSpec F))
  load_parameters rows = load_from rows [] []
