-- ===== src/Registry/Spec.antt =====
-- src/watlowlib/registry/parameters.py: `RwesFlag`, `ParameterSpec` and the checks on one row. The fields
-- `default` and `family_hints` are left out. Python's
-- `float` is the parameter `F`, with the operations of `Arith`.
use watlowlib.Base.{ℕ, List, Bool, true, false, ◌||◌, Option, none, some, if◌then◌else◌}
use watlowlib.Base.Int.{ℤ, pos, ltb_ℤ}
use watlowlib.Errors.{validation_error}
use watlowlib.Result.{Result, ok, err, ◌>>=◌}
use watlowlib.Registry.Units.{UnitKind}
use watlowlib.StdBus.Value.{Value, int, float, str, raw, Floats, DataType}

pub data RwesFlag : Type 0 where
  flag_r flag_w flag_rw flag_rwe flag_rwes : RwesFlag

-- `class SafetyTier`
pub data SafetyTier : Type 0 where
  read_only stateful persistent : SafetyTier

unfoldable pub safety_from_rwes : RwesFlag → SafetyTier
safety_from_rwes flag_r = read_only
safety_from_rwes flag_w = persistent
safety_from_rwes flag_rw = persistent
safety_from_rwes flag_rwe = persistent
safety_from_rwes flag_rwes = persistent

pub record Arith (F : Type 0) : Type 0 where
  -- `a < b`, `a == b`, `10.0 ** -n`, `a * b` and `round(a / b)` of floats.
  pub lt : F → F → Bool
  pub eq : F → F → Bool
  pub ten_to_minus : ℕ → F
  pub one : F
  pub mul : F → F → F
  pub round_div : F → F → Result ℤ

-- A name is its code points.
abbrev pub Name : Type 0
Name = List ℕ

pub record ParameterSpec (F : Type 0) : Type 0 where
  pub parameter_id : ℕ
  pub name : Name
  pub aliases : List Name
  pub data_type : DataType
  pub unit_kind : UnitKind
  pub rwes : RwesFlag
  pub safety : SafetyTier
  pub cls : ℕ
  pub member : ℕ
  pub default_instance : ℤ
  pub max_instance : ℤ
  pub relative_addr : ℤ
  pub absolute_addr : ℤ
  pub register_count : ℕ
  pub word_order : Option (List ℕ)
  pub range_min : Option F
  pub range_max : Option F
  pub scale : F
  pub decimal_register : Option ℕ

module _ {F : Type 0} where
  unfoldable pub validate_instance : ParameterSpec F → ℤ → Result (Unit {0})
  validate_instance spec n =
      if ltb_ℤ n (pos 1) || ltb_ℤ spec.max_instance n then err validation_error else ok tt

  unfoldable pub validate_writable : ParameterSpec F → Result (Unit {0})
  validate_writable spec = elim spec.rwes [ flag_r ↦ err validation_error | _ ↦ ok tt ]

  -- `float(value)`; bytes are no value of the request types.
  unfoldable pub float_value : Floats F → Value F → Result (Option F)
  float_value fl (int z) = fl.of_int z >>= λ x. ok (some x)
  float_value fl (float x) = ok (some x)
  float_value fl (str s) = ok none
  float_value fl (raw b) = ok none

  unfoldable pub in_range : Arith F → Option F → Option F → F → Result (Unit {0})
  in_range ar none hi v = ok tt
  in_range ar (some lo) none v = ok tt
  in_range ar (some lo) (some hi) v =
      if ar.lt v lo || ar.lt hi v then err validation_error else ok tt

  -- The range is looked at first: without one, `float(value)` is not computed.
  abbrev pub has_range : Option F → Option F → Bool
  has_range (some lo) (some hi) = true
  has_range (some lo) none = false
  has_range none hi = false

  unfoldable pub validate_value : Floats F → Arith F → ParameterSpec F → Value F → Result (Unit {0})
  unfolding float_value in_range
  validate_value fl ar spec value =
      if has_range spec.range_min spec.range_max
      then (float_value fl value >>= λ v. elim v [
        | none ↦ ok tt
        | some x ↦ in_range ar spec.range_min spec.range_max x
      ])
      else ok tt
