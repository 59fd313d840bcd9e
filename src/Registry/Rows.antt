-- ===== src/Registry/Rows.antt =====
-- src/watlowlib/registry/parameters.py: the JSON rows that `json.loads` returns, and Python's conversions
-- of their values.
use watlowlib.Base.{
  ℕ, zero, suc, List, [], ◌∷◌, Bool, true, false, ◌||◌, Option, none, some, if◌then◌else◌,
}
use watlowlib.Base.Int.{ℤ, pos, negsuc}
use watlowlib.Base.Text.{get_text}
use watlowlib.Errors.{key_error, type_error, value_error, is_a}
use watlowlib.Result.{Result, ok, err, stuck}
use watlowlib.StdBus.Value.{Floats}
use watlowlib.Registry.Range.{Classes}
use watlowlib.Registry.Spec.{Name}

-- A value of a JSON row; the rows hold no lists and no truth values.
pub data Json (F : Type 0) : Type 0 where
  null : Json F
  whole : ℤ → Json F
  real : F → Json F
  text : Name → Json F

-- What the loader uses of Python's conversions: `str.strip`, `str.lower`, `int(text)`, `float(text)`,
-- `str(number)` and the truth of a float.
pub record Conversions (F : Type 0) : Type 0 where
  pub floats : Floats F
  pub classes : Classes F
  pub strip : Name → Name
  pub lower : Name → Name
  pub int_of_text : Name → Result ℤ
  pub float_of_text : Name → Result F
  pub show_number : Json F → Name
  pub is_zero : F → Bool
  pub one : F

abbrev pub Row : Type 0 → Type 0
Row F = List (Name × Json F)

-- The fields that are natural numbers in the model; no row has a negative one.
abbrev pub natural : ℤ → Result ℕ
natural (pos n) = ok n
natural (negsuc n) = stuck

module _ {F : Type 0} where
  -- `raw.get(key)`, and `raw[key]`
  abbrev pub get : Row F → Name → Json F
  get row key = elim (get_text key row) [ none ↦ null | some v ↦ v ]

  unfoldable pub item : Row F → Name → Result (Json F)
  item row key = elim (get_text key row) [ none ↦ err key_error | some v ↦ ok v ]

  abbrev pub text_of : Json F → Option Name
  text_of (text t) = some t
  text_of _ = none

module _ {F : Type 0} (cv : Conversions F) where
  -- `int(value)` and `float(value)`
  unfoldable pub to_int : Json F → Result ℤ
  to_int null = err type_error
  to_int (whole z) = ok z
  to_int (real x) = cv.floats.to_int x
  to_int (text t) = cv.int_of_text t

  unfoldable pub to_float : Json F → Result F
  to_float null = err type_error
  to_float (whole z) = cv.floats.of_int z
  to_float (real x) = ok x
  to_float (text t) = cv.float_of_text t

  abbrev pub is_false : Json F → Bool
  is_false null = true
  is_false (whole (pos zero)) = true
  is_false (whole (pos (suc n))) = false
  is_false (whole (negsuc n)) = false
  is_false (real x) = cv.is_zero x
  is_false (text []) = true
  is_false (text (c ∷ t)) = false

  abbrev pub str_of : Json F → Name
  str_of (text t) = t
  str_of v = cv.show_number v

  -- `_coerce_int`: `int(str(value))` of a value that is no integer, 0 on `TypeError` and `ValueError`.
  abbrev or_zero : Result ℤ → Result ℤ
  or_zero (ok z) = ok z
  or_zero (err e) = if is_a e type_error || is_a e value_error then ok (pos 0) else err e
  or_zero stuck = stuck

  unfoldable pub coerce_int : Json F → Result ℤ
  coerce_int null = ok (pos 0)
  coerce_int (whole z) = ok z
  coerce_int (real x) = or_zero (cv.int_of_text (str_of (real x)))
  coerce_int (text t) = or_zero (cv.int_of_text t)

  -- `int(raw.get(key) or 1)`
  unfoldable pub int_or_one : Json F → Result ℤ
  int_or_one v = if is_false v then ok (pos 1) else to_int v
