-- ===== src/Devices/Facade/Values.antt =====
-- What a value on the wire and the unit of a parameter come to in a reading or a sample.
use watlowlib.Base.{ℕ, ◌≡◌, refl, List, Option, none, some}
use watlowlib.Base.Int.{ℤ}
use watlowlib.Result.{ok}
use watlowlib.StdBus.Value.{Value, int, float, str, raw, Floats}
use watlowlib.Registry.Units.{
  DisplayUnit, percent, UnitKind, temperature_kind, percent_kind, dimensionless_kind,
  enumeration_kind, string_kind, resolve_unit,
}
use watlowlib.Devices.Facade.{number_of}

-- The number of a value: a float is one, an integer becomes one, texts and bytes have none.
pub data HasNumber {F : Type 0} (fl : Floats F) : Value F → Option F → Type 0 where
  from_float : (x : F) → HasNumber fl (float x) (some x)
  from_int : (z : ℤ) (x : F) → fl.of_int z ≡ ok x → HasNumber fl (int z) (some x)
  from_text : (t : List ℕ) → HasNumber fl (str t) none
  from_bytes : (b : List ℕ) → HasNumber fl (raw b) none

-- The unit of a parameter of a kind, where temperatures on the wire have the unit `wire`.
pub data HasUnit (wire : Option DisplayUnit) : UnitKind → Option DisplayUnit → Type 0 where
  on_wire : HasUnit wire temperature_kind wire
  in_percent : HasUnit wire percent_kind (some percent)
  dimensionless : HasUnit wire dimensionless_kind none
  enumerated : HasUnit wire enumeration_kind none
  textual : HasUnit wire string_kind none

pub number_of-HasNumber :
    {F : Type 0} (fl : Floats F) (v : Value F) (x : Option F)
    → HasNumber fl v x
    → number_of fl v ≡ ok x
unfolding number_of
number_of-HasNumber fl v x (from_float y) = refl
number_of-HasNumber fl v x (from_int z y e) = rw e refl
number_of-HasNumber fl v x (from_text t) = refl
number_of-HasNumber fl v x (from_bytes b) = refl

pub resolve_unit-HasUnit :
    (wire : Option DisplayUnit) (k : UnitKind) (u : Option DisplayUnit)
    → HasUnit wire k u
    → resolve_unit k wire ≡ u
unfolding resolve_unit
resolve_unit-HasUnit wire k u on_wire = refl
resolve_unit-HasUnit wire k u in_percent = refl
resolve_unit-HasUnit wire k u dimensionless = refl
resolve_unit-HasUnit wire k u enumerated = refl
resolve_unit-HasUnit wire k u textual = refl

pub HasUnit-resolve_unit :
    (wire : Option DisplayUnit) (k : UnitKind) → HasUnit wire k (resolve_unit k wire)
unfolding resolve_unit
HasUnit-resolve_unit wire temperature_kind = on_wire
HasUnit-resolve_unit wire percent_kind = in_percent
HasUnit-resolve_unit wire dimensionless_kind = dimensionless
HasUnit-resolve_unit wire enumeration_kind = enumerated
HasUnit-resolve_unit wire string_kind = textual
