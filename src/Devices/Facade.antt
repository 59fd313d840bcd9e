-- ===== src/Devices/Facade.antt =====
-- src/watlowlib/devices/controller.py, the unit labels of src/watlowlib/devices/session.py and
-- src/watlowlib/devices/_reading.py. What the facade uses of `Session.execute` with the two parameter
-- commands is an interface; logging and time stamps are not modelled.
pub mod Values
pub mod Labels
pub mod Loops
pub mod Polling
use watlowlib.Base.{
  ℕ, List, [], ◌∷◌, Bool, true, false, ◌||◌, Option, none, some, ltb, if◌then◌else◌,
}
use watlowlib.Base.Int.{ℤ, pos, negsuc, ltb_ℤ}
use watlowlib.Base.Text.{codes}
use watlowlib.Errors.{Error, validation_error, protocol_error, transport_error, is_a}
use watlowlib.Result.{Result, ok, err, stuck}
use watlowlib.Exec.{Exec, continue, pure, raise, lift, ◌>>=◌}
use watlowlib.StdBus.Value.{Value, int, float, str, raw, Floats}
use watlowlib.Registry.Units.{
  DisplayUnit, UnitKind, temperature_kind, percent_kind, dimensionless_kind, enumeration_kind,
  string_kind, UnitArgument, coerce_unit, display_code_for_unit, unit_from_display_code,
  resolve_unit,
}
use watlowlib.Registry.Families.{Capability}
use watlowlib.Registry.Spec.{Name, ParameterSpec}
use watlowlib.Registry.Index.{ParameterRegistry, Target, by_name, by_id, resolve}
use watlowlib.Commands.Request.{ParameterEntry}

-- `session.execute(READ_PARAMETER, …)` and `session.execute(WRITE_PARAMETER, …)`, on sessions `S`.
pub record Gateway (F S : Type 0) : Type 0 where
  pub registry : S → ParameterRegistry F
  pub read : Target → ℤ → Exec S (ParameterEntry F)
  pub write : Target → Value F → ℤ → Bool → Exec S (ParameterEntry F)

-- The session with its unit fields, and the fields that `identify` fills.
pub record Controller (S : Type 0) : Type 0 where
  pub session : S
  pub wire_unit : Option DisplayUnit
  pub wire_unit_warned : Bool
  pub label : Option DisplayUnit
  pub label_loaded : Bool
  pub loops : Option ℕ
  pub capabilities : Option Capability

pub record Reading (F : Type 0) : Type 0 where
  pub value : Option F
  pub unit : Option DisplayUnit

-- A call on the session of a controller.
abbrev pub on_session : {S A : Type 0} → Exec S A → Exec (Controller S) A
on_session call c = let (r, s) = call c.session in (r, record c { session = s })

abbrev pub is_temperature : UnitKind → Bool
is_temperature temperature_kind = true
is_temperature percent_kind = false
is_temperature dimensionless_kind = false
is_temperature enumeration_kind = false
is_temperature string_kind = false

abbrev warned_by : Option DisplayUnit → Bool → Bool
warned_by none before = before
warned_by (some u) before = true

module _ {S : Type 0} where
  unfoldable pub wire_temperature_unit : Exec (Controller S) (Option DisplayUnit)
  wire_temperature_unit c =
      (ok c.wire_unit, record c { wire_unit_warned = warned_by c.wire_unit c.wire_unit_warned })

  unfoldable pub set_wire_temperature_unit : Option DisplayUnit → Controller S → Controller S
  set_wire_temperature_unit u c = record c { wire_unit = u; wire_unit_warned = true }

  unfoldable pub invalidate_comms_unit_label : Controller S → Controller S
  invalidate_comms_unit_label c = record c { label = none; label_loaded = false }

abbrev as_number : {F : Type 0} → Result F → Result (Option F)
as_number (ok x) = ok (some x)
as_number (err e) = err e
as_number stuck = stuck

-- `unit_from_display_code(code)`; no negative number is a code.
abbrev as_unit : Result ℤ → Result (Option DisplayUnit)
as_unit (ok (pos n)) = ok (unit_from_display_code n)
as_unit (ok (negsuc n)) = ok none
as_unit (err e) = err e
as_unit stuck = stuck

module _ {F : Type 0} (fl : Floats F) where
  -- `float(value) if isinstance(value, int | float) else None`
  unfoldable pub number_of : Value F → Result (Option F)
  number_of (int z) = as_number (fl.of_int z)
  number_of (float x) = ok (some x)
  number_of (str t) = ok none
  number_of (raw b) = ok none

  -- `unit_from_display_code(int(value))` of a number.
  unfoldable pub label_of : Value F → Result (Option DisplayUnit)
  label_of (int z) = as_unit (ok z)
  label_of (float x) = as_unit (fl.to_int x)
  label_of (str t) = ok none
  label_of (raw b) = ok none

module _ {F S : Type 0} (fl : Floats F) where
  unfoldable pub reading_from_entry : ParameterEntry F → Exec (Controller S) (Reading F)
  unfolding number_of wire_temperature_unit
  reading_from_entry entry =
      (if is_temperature entry.spec.unit_kind then wire_temperature_unit else pure none)
      >>= λ temperature_unit. lift (number_of fl entry.value) >>= λ value.
          pure (record { value = value; unit = resolve_unit entry.spec.unit_kind temperature_unit })

-- `except (WatlowProtocolError, WatlowTransportError)`
abbrev pub degrades : Error → Bool
degrades e = is_a e protocol_error || is_a e transport_error

module _ {F S : Type 0} (fl : Floats F) (lower : Name → Name) (gate : Gateway F S) where
  unfoldable pub read_parameter : Target → ℤ → Exec (Controller S) (ParameterEntry F)
  read_parameter target n = on_session (gate.read target n)

  unfoldable pub write_parameter :
      Target → Value F → ℤ → Bool → Exec (Controller S) (ParameterEntry F)
  write_parameter target value n confirm = on_session (gate.write target value n confirm)

  -- `read_pv`, `read_setpoint` and `read_output`
  unfoldable pub read_named : Name → ℤ → Exec (Controller S) (Reading F)
  unfolding read_parameter
  read_named name n = read_parameter (by_name name) n >>= reading_from_entry fl

  unfoldable pub read_pv : ℤ → Exec (Controller S) (Reading F)
  unfolding read_named
  read_pv n = read_named (codes "process_value") n

  unfoldable pub read_setpoint : ℤ → Exec (Controller S) (Reading F)
  unfolding read_named
  read_setpoint n = read_named (codes "setpoint") n

  unfoldable pub poll : ℤ → Exec (Controller S) (Reading F)
  unfolding read_pv
  poll n = read_pv n

  unfoldable pub set_setpoint : Value F → ℤ → Bool → Exec (Controller S) (Reading F)
  unfolding write_parameter
  set_setpoint value n confirm =
      write_parameter (by_name (codes "setpoint")) value n confirm >>= reading_from_entry fl

  unfoldable pub set_persistent_writes : Bool → Bool → Exec (Controller S) (Unit {0})
  unfolding write_parameter
  set_persistent_writes enabled confirm =
      write_parameter (by_name (codes "eeprom_write_enable")) (int (pos (if enabled then 1 else 0)))
        (pos 1) confirm
      >>= λ entry. pure tt

  -- `registry.has("display_units")`: `resolve` raises no other exception.
  abbrev pub has : ParameterRegistry F → Name → Bool
  has r name = elim (resolve lower r (by_name name)) [
    | ok spec ↦ true
    | err e ↦ false
    | stuck ↦ false
  ]

  -- The handlers of `_fetch_comms_unit_label`.
  unfoldable pub fetched :
      Result (ParameterEntry F) × Controller S → Result (Option DisplayUnit) × Controller S
  fetched (ok entry, c) = (label_of fl entry.value, c)
  fetched (err e, c) = ((if degrades e then ok none else err e), c)
  fetched (stuck, c) = (stuck, c)

  unfoldable pub fetch_comms_unit_label : Exec (Controller S) (Option DisplayUnit)
  fetch_comms_unit_label c =
      if has (gate.registry c.session) (codes "display_units")
      then fetched (read_parameter (by_name (codes "display_units")) (pos 1) c)
      else (ok none, c)

  unfoldable pub comms_unit_label : Exec (Controller S) (Option DisplayUnit)
  comms_unit_label c =
      if c.label_loaded
      then (ok c.label, c)
      else (fetch_comms_unit_label >>= λ label c'.
            (ok label, record c' { label = label; label_loaded = true }))
          c

  unfoldable pub set_comms_unit_label :
      (Name → Name) → UnitArgument → Bool → Exec (Controller S) (Option DisplayUnit)
  set_comms_unit_label strip argument confirm =
      lift (coerce_unit strip lower argument) >>= λ resolved.
      elim (display_code_for_unit resolved) [
        | none ↦ raise validation_error
        | some code ↦
            write_parameter (by_name (codes "display_units")) (int (pos code)) (pos 1) confirm
            >>= λ entry c. comms_unit_label (invalidate_comms_unit_label c)
      ]

-- `ControllerLoop(controller, n)`: the checks of its constructor.
unfoldable pub loop : {S : Type 0} → ℤ → Controller S → Result ℤ
loop n c = if ltb_ℤ n (pos 1) then err validation_error else elim c.loops [
  | none ↦ ok n
  | some loops ↦ if ltb_ℤ (pos loops) n then err validation_error else ok n
]
