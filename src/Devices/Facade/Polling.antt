-- ===== src/Devices/Facade/Polling.antt =====
-- src/watlowlib/streaming/_poll.py: `poll_controller`. The fields of a sample that hold the device, its
-- address and times are not modelled; the lock is that of the session.
pub mod Samples
use watlowlib.Base.{
  ℕ, suc, ◌+◌, ◌≤◌, ◌≡◌, inl, inr, refl, sym, subst, arith, List, [], ◌∷◌, ◌++◌, Option, none,
  if◌then◌else◌, length, length-append, Bool-cases,
}
use watlowlib.Base.Int.{ℤ}
use watlowlib.Errors.{watlow_error, is_a}
use watlowlib.Result.{Result, ok, err, stuck}
use watlowlib.Exec.{Exec, continue, pure, ◌>>=◌}
use watlowlib.StdBus.Value.{Value, Floats}
use watlowlib.Registry.Units.{DisplayUnit, resolve_unit}
use watlowlib.Registry.Spec.{Name, ParameterSpec}
use watlowlib.Registry.Index.{ParameterRegistry, Target, by_name, resolve}
use watlowlib.Commands.Request.{ParameterEntry}
use watlowlib.Modbus.Client.{RaisesTyped}
use watlowlib.Devices.Facade.{
  Gateway, Controller, is_temperature, wire_temperature_unit, on_session, read_parameter,
}

pub record Sample (F : Type 0) : Type 0 where
  pub parameter : Name
  pub parameter_id : ℕ
  pub instance_id : ℤ
  pub value : Value F
  pub unit : Option DisplayUnit

abbrev pub sample_of :
    {F : Type 0} → ParameterSpec F → Option DisplayUnit → ℤ → ParameterEntry F → Sample F
sample_of spec unit n entry = record {
  parameter = spec.name;
  parameter_id = spec.parameter_id;
  instance_id = n;
  value = entry.value;
  unit = unit;
}

module _ {F S : Type 0} where
  -- The samples after the read of an instance.
  unfoldable pub kept :
      ParameterSpec F
      → Option DisplayUnit
      → ℤ
      → List (Sample F)
      → Result (ParameterEntry F) × Controller S
      → Result (List (Sample F)) × Controller S
  kept spec unit n samples (ok entry, c) = (ok (samples ++ (sample_of spec unit n entry ∷ [])), c)
  kept spec unit n samples (err e, c) = ((if is_a e watlow_error then ok samples else err e), c)
  kept spec unit n samples (stuck, c) = (stuck, c)

module _ {F S : Type 0} (fl : Floats F) (lower : Name → Name) (gate : Gateway F S) where
  -- The loop over the instances of a parameter.
  unfoldable pub poll_instances :
      ParameterSpec F
      → Option DisplayUnit
      → List ℤ
      → List (Sample F)
      → Exec (Controller S) (List (Sample F))
  poll_instances spec unit [] samples = pure samples
  poll_instances spec unit (n ∷ instances) samples =
      (λ c. kept spec unit n samples (read_parameter fl lower gate (by_name spec.name) n c))
      >>= poll_instances spec unit instances

  -- The unit of a parameter; the session's unit is asked for only for a temperature.
  unfoldable pub unit_for : ParameterSpec F → Exec (Controller S) (Option DisplayUnit)
  unfolding wire_temperature_unit
  unit_for spec =
      (if is_temperature spec.unit_kind then wire_temperature_unit else pure none)
      >>= λ temperature_unit. pure (resolve_unit spec.unit_kind temperature_unit)

  -- The round of a parameter, from its resolution on. `resolve` raises only `WatlowError`s.
  unfoldable pub poll_spec :
      List ℤ → List (Sample F) → Result (ParameterSpec F) → Exec (Controller S) (List (Sample F))
  poll_spec instances samples (ok spec) =
      unit_for spec >>= λ unit. poll_instances spec unit instances samples
  poll_spec instances samples (err e) = pure samples
  poll_spec instances samples stuck = pure samples

  unfoldable pub poll_from :
      ParameterRegistry F
      → List ℤ
      → List Target
      → List (Sample F)
      → Exec (Controller S) (List (Sample F))
  poll_from registry instances [] samples = pure samples
  poll_from registry instances (ident ∷ parameters) samples =
      poll_spec instances samples (resolve lower registry ident)
      >>= poll_from registry instances parameters

  unfoldable pub poll_controller : List Target → List ℤ → Exec (Controller S) (List (Sample F))
  poll_controller parameters instances c =
      poll_from (gate.registry c.session) instances parameters [] c
