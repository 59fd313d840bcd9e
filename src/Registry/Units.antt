-- ===== src/Registry/Units.antt =====
-- src/watlowlib/registry/units.py and src/watlowlib/units.py. `str.strip` and `str.lower` are parameters.
use watlowlib.Base.{
  ℕ, ◌≡◌, ◌↔◌, refl, arith, List, [], ◌∷◌, Bool, true, false, Option, none, some, ◌==◌,
  if◌then◌else◌,
}
use watlowlib.Base.Text.{codes, get_text}
use watlowlib.Errors.{validation_error}
use watlowlib.Result.{Result, ok, err, stuck}

-- `class Unit`
pub data DisplayUnit : Type 0 where
  celsius fahrenheit percent : DisplayUnit

pub data UnitKind : Type 0 where
  temperature_kind percent_kind dimensionless_kind enumeration_kind string_kind : UnitKind

abbrev pub display_unit_codes : List (ℕ × DisplayUnit)
display_unit_codes = (15, celsius) ∷ (30, fahrenheit) ∷ []

abbrev pub unit_string_aliases : List (List ℕ × DisplayUnit)
unit_string_aliases =
    (codes "c", celsius)
    ∷ (codes "celsius", celsius)
    ∷ (codes "degc", celsius)
    ∷ (0xb0 ∷ codes "c", celsius)
    ∷ (codes "f", fahrenheit)
    ∷ (codes "fahrenheit", fahrenheit)
    ∷ (codes "degf", fahrenheit)
    ∷ (0xb0 ∷ codes "f", fahrenheit)
    ∷ (codes "%", percent)
    ∷ (codes "percent", percent)
    ∷ (codes "pct", percent)
    ∷ []

abbrev same_unit : DisplayUnit → DisplayUnit → Bool
same_unit celsius celsius = true
same_unit fahrenheit fahrenheit = true
same_unit percent percent = true
same_unit _ _ = false

abbrev find_code : ℕ → List (ℕ × DisplayUnit) → Option DisplayUnit
find_code code [] = none
find_code code ((k, u) ∷ rest) = if k == code then some u else find_code code rest

-- The reversed table: no unit has two codes.
abbrev find_unit : DisplayUnit → List (ℕ × DisplayUnit) → Option ℕ
find_unit unit [] = none
find_unit unit ((k, u) ∷ rest) = if same_unit u unit then some k else find_unit unit rest

unfoldable pub unit_from_display_code : ℕ → Option DisplayUnit
unit_from_display_code code = find_code code display_unit_codes

unfoldable pub display_code_for_unit : DisplayUnit → Option ℕ
display_code_for_unit unit = find_unit unit display_unit_codes

-- A `Unit`, a string, or a value of any other type.
pub data UnitArgument : Type 0 where
  unit : DisplayUnit → UnitArgument
  alias : List ℕ → UnitArgument
  other : UnitArgument

unfoldable pub resolve_unit : UnitKind → Option DisplayUnit → Option DisplayUnit
resolve_unit temperature_kind temperature_unit = temperature_unit
resolve_unit percent_kind temperature_unit = some percent
resolve_unit dimensionless_kind temperature_unit = none
resolve_unit enumeration_kind temperature_unit = none
resolve_unit string_kind temperature_unit = none

-- `_WATLOW_UNIT_TO_PINT`
abbrev pub pint_name : DisplayUnit → List ℕ
pint_name celsius = codes "degC"
pint_name fahrenheit = codes "degF"
pint_name percent = codes "percent"

-- `UnitKind(…)` of a string; `none` is `ValueError`.
abbrev pub unit_kind_values : List (List ℕ × UnitKind)
unit_kind_values =
    (codes "temperature", temperature_kind)
    ∷ (codes "percent", percent_kind)
    ∷ (codes "dimensionless", dimensionless_kind)
    ∷ (codes "enumeration", enumeration_kind)
    ∷ (codes "string", string_kind)
    ∷ []

module _ (strip lower : List ℕ → List ℕ) where
  unfoldable pub coerce_unit : UnitArgument → Result DisplayUnit
  coerce_unit (unit u) = ok u
  coerce_unit (alias text) = elim (get_text (lower (strip text)) unit_string_aliases) [
    | none ↦ err validation_error
    | some u ↦ ok u
  ]
  coerce_unit other = err validation_error

  -- `to_pint` from the coerced unit, or the exception, on.
  unfoldable pub pint_of : Result DisplayUnit → Result (Option (List ℕ))
  pint_of (ok u) = ok (some (pint_name u))
  pint_of (err e) = ok none
  pint_of stuck = stuck

  unfoldable pub to_pint : Option UnitArgument → Result (Option (List ℕ))
  unfolding coerce_unit pint_of
  to_pint none = ok none
  to_pint (some u) = pint_of (coerce_unit u)

-- A number is the code of a unit exactly where the unit is what the number stands for.
display_code_for_unit-unit_from_display_code :
    (code : ℕ) (u : DisplayUnit)
    → (display_code_for_unit u ≡ some code) ↔ (unit_from_display_code code ≡ some u)
unfolding display_code_for_unit unit_from_display_code
display_code_for_unit-unit_from_display_code code celsius = ground arith
display_code_for_unit-unit_from_display_code code fahrenheit = ground arith
display_code_for_unit-unit_from_display_code code percent = ground arith

-- Whatever string `coerce_unit` accepts, the pint name of the unit that it returns is accepted too, for
-- the same unit, and `to_pint` gives the string the name of that unit. That `str.lower` and `str.strip`
-- act so on the three pint names is a hypothesis.
coerce_unit-to_pint :
    (strip lower : List ℕ → List ℕ) (text : List ℕ) (u : DisplayUnit)
    → lower (strip (codes "degC")) ≡ codes "degc"
    → lower (strip (codes "degF")) ≡ codes "degf"
    → lower (strip (codes "percent")) ≡ codes "percent"
    → coerce_unit strip lower (alias text) ≡ ok u
    → (to_pint strip lower (some (alias text)) ≡ ok (some (pint_name u)))
      × (coerce_unit strip lower (alias (pint_name u)) ≡ ok u)
unfolding to_pint pint_of
coerce_unit-to_pint strip lower text u c f p e = (rw e refl, again u)
  where
    again : (v : DisplayUnit) → coerce_unit strip lower (alias (pint_name v)) ≡ ok v
    again celsius = rw (c, coerce_unit) refl
    again fahrenheit = rw (f, coerce_unit) refl
    again percent = rw (p, coerce_unit) refl
