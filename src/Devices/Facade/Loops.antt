-- ===== src/Devices/Facade/Loops.antt =====
-- src/watlowlib/commands/loop.py and src/watlowlib/commands/alarms.py: the gains of a control loop.
use watlowlib.Base.{◌≡◌, refl, ap, Bool, true, false, ◌&&◌, not, Option, none, some, if◌then◌else◌}
use watlowlib.Base.Int.{ℤ}
use watlowlib.Base.Text.{codes}
use watlowlib.Errors.{configuration_error, protocol_unsupported_error}
use watlowlib.Result.{Result, ok, err, stuck}
use watlowlib.Exec.{Exec, pure, raise, lift, ◌>>=◌}
use watlowlib.StdBus.Value.{float, Floats}
use watlowlib.Registry.Families.{Capability}
use watlowlib.Registry.Spec.{Name}
use watlowlib.Registry.Index.{by_name}
use watlowlib.Commands.Request.{ParameterEntry}
use watlowlib.Devices.Facade.{
  Gateway, Controller, number_of, degrades, on_session, read_parameter, write_parameter,
}

pub record PidGains (F : Type 0) : Type 0 where
  pub heat_proportional_band : Option F
  pub cool_proportional_band : Option F
  pub time_integral : Option F
  pub time_derivative : Option F
  pub dead_band : Option F

abbrev pub has_cooling : Option Capability → Bool
has_cooling none = true
has_cooling (some c) = c.has_cooling

-- The names of `_PID_FIELDS`; the second and the last are for cooling only.
abbrev pub heat_name : Name
heat_name = codes "heat_proportional_band"

abbrev pub cool_name : Name
cool_name = codes "cool_proportional_band"

abbrev pub integral_name : Name
integral_name = codes "time_integral"

abbrev pub derivative_name : Name
derivative_name = codes "time_derivative"

abbrev pub dead_band_name : Name
dead_band_name = codes "dead_band"

abbrev pub or_given : {F : Type 0} → F → Option F → Option F
or_given value none = some value
or_given value (some x) = some x

module _ {F S : Type 0} (fl : Floats F) where
  -- The handlers of `_safe_read_float`, and the conversion.
  unfoldable pub number_or_none :
      Result (ParameterEntry F) × Controller S → Result (Option F) × Controller S
  number_or_none (ok entry, c) = (number_of fl entry.value, c)
  number_or_none (err e, c) = ((if degrades e then ok none else err e), c)
  number_or_none (stuck, c) = (stuck, c)

module _ {F S : Type 0} (fl : Floats F) (lower : Name → Name) (gate : Gateway F S) where
  unfoldable pub safe_read_float : Name → ℤ → Exec (Controller S) (Option F)
  unfolding number_or_none
  safe_read_float name n c = number_or_none fl (read_parameter fl lower gate (by_name name) n c)

  -- One round of the loop of `read_pid`: is the gain for cooling only, and is there cooling?
  unfoldable pub read_gain : Bool → Bool → Name → ℤ → Exec (Controller S) (Option F)
  read_gain cool_only cooling name n =
      if cool_only && not cooling then pure none else safe_read_float name n

  unfoldable pub read_pid : ℤ → Option Capability → Exec (Controller S) (PidGains F)
  read_pid n capabilities = do
    heat ← read_gain false (has_cooling capabilities) heat_name n
    cool ← read_gain true (has_cooling capabilities) cool_name n
    integral ← read_gain false (has_cooling capabilities) integral_name n
    derivative ← read_gain false (has_cooling capabilities) derivative_name n
    dead ← read_gain true (has_cooling capabilities) dead_band_name n
    pure (record {
      heat_proportional_band = heat;
      cool_proportional_band = cool;
      time_integral = integral;
      time_derivative = derivative;
      dead_band = dead;
    })

  -- One round of the loop of `write_pid`.
  unfoldable pub write_gain :
      Bool → Bool → Name → ℤ → Bool → Option F → Exec (Controller S) (Option F)
  write_gain cool_only cooling name n confirm none = pure none
  write_gain cool_only cooling name n confirm (some value) =
      if cool_only && not cooling
      then raise configuration_error
      else (write_parameter fl lower gate (by_name name) (float value) n confirm >>= λ entry.
          lift (number_of fl entry.value) >>= λ applied. pure (or_given value applied))

  unfoldable pub write_pid :
      PidGains F → ℤ → Bool → Option Capability → Exec (Controller S) (PidGains F)
  write_pid gains n confirm capabilities = do
    heat ←
        write_gain false (has_cooling capabilities) heat_name n confirm gains.heat_proportional_band
    cool ←
        write_gain true (has_cooling capabilities) cool_name n confirm gains.cool_proportional_band
    integral ←
        write_gain false (has_cooling capabilities) integral_name n confirm gains.time_integral
    derivative ←
        write_gain false (has_cooling capabilities) derivative_name n confirm gains.time_derivative
    dead ← write_gain true (has_cooling capabilities) dead_band_name n confirm gains.dead_band
    pure (record {
      heat_proportional_band = heat;
      cool_proportional_band = cool;
      time_integral = integral;
      time_derivative = derivative;
      dead_band = dead;
    })

-- `read_alarms` raises on every call.
unfoldable pub read_alarms : {S : Type 0} → ℤ → Exec (Controller S) (Unit {0})
read_alarms n = raise protocol_unsupported_error

-- Two gateways that read and write the three gains without cooling alike.
pub record Agree {F S : Type 0} (g g' : Gateway F S) : Type 0 where
  pub heat_read : g.read (by_name heat_name) ≡ g'.read (by_name heat_name)
  pub integral_read : g.read (by_name integral_name) ≡ g'.read (by_name integral_name)
  pub derivative_read : g.read (by_name derivative_name) ≡ g'.read (by_name derivative_name)
  pub heat_written : g.write (by_name heat_name) ≡ g'.write (by_name heat_name)
  pub integral_written : g.write (by_name integral_name) ≡ g'.write (by_name integral_name)
  pub derivative_written : g.write (by_name derivative_name) ≡ g'.write (by_name derivative_name)

module _ {F S : Type 0} (fl : Floats F) (lower : Name → Name) (g g' : Gateway F S) where
  read_gain_agree :
      (cooling : Bool) (name : Name) (n : ℤ)
      → g.read (by_name name) ≡ g'.read (by_name name)
      → read_gain fl lower g false cooling name n ≡ read_gain fl lower g' false cooling name n
  unfolding read_gain safe_read_float read_parameter
  read_gain_agree cooling name n e = ap (λ call c. number_or_none fl (on_session (call n) c)) e

  write_gain_agree :
      (cooling : Bool) (name : Name) (n : ℤ) (confirm : Bool) (v : Option F)
      → g.write (by_name name) ≡ g'.write (by_name name)
      → write_gain fl lower g false cooling name n confirm v
        ≡ write_gain fl lower g' false cooling name n confirm v
  unfolding write_gain write_parameter
  write_gain_agree cooling name n confirm none e = refl
  write_gain_agree cooling name n confirm (some v) e =
      ap
        (λ call. on_session (call (float v) n confirm) >>= λ entry.
          lift (number_of fl entry.value) >>= λ applied. pure (or_given v applied))
        e

  cool_gain_agree :
      (name : Name) (n : ℤ) (confirm : Bool) (v : Option F)
      → (read_gain fl lower g true false name n ≡ read_gain fl lower g' true false name n)
        × (write_gain fl lower g true false name n confirm v
            ≡ write_gain fl lower g' true false name n confirm v)
  unfolding read_gain write_gain
  cool_gain_agree name n confirm none = (refl, refl)
  cool_gain_agree name n confirm (some v) = (refl, refl)

  -- On a device whose capabilities are known and lack cooling, `read_pid` and `write_pid` do nothing that
  -- depends on the parameters for cooling: with any two gateways that read and write the other three gains
  -- alike, they return the same, raise the same, and leave the same state.
  pub pid-Agree :
      (gains : PidGains F) (n : ℤ) (confirm : Bool) (caps : Capability)
      → Agree g g'
      → caps.has_cooling ≡ false
      → (read_pid fl lower g n (some caps) ≡ read_pid fl lower g' n (some caps))
        × (write_pid fl lower g gains n confirm (some caps)
            ≡ write_pid fl lower g' gains n confirm (some caps))
  unfolding read_pid write_pid
  pid-Agree gains n confirm caps a none_ = (
    rw none_ (
        rw
          (
            read_gain_agree false heat_name n a.heat_read,
            read_gain_agree false integral_name n a.integral_read,
            read_gain_agree false derivative_name n a.derivative_read,
            (cool_gain_agree cool_name n confirm none).0,
            (cool_gain_agree dead_band_name n confirm none).0,
          )
          refl),
    rw none_ (
        rw
          (
            write_gain_agree false heat_name n confirm gains.heat_proportional_band a.heat_written,
            write_gain_agree false integral_name n confirm gains.time_integral a.integral_written,
            write_gain_agree false derivative_name n confirm gains.time_derivative
                a.derivative_written,
            (cool_gain_agree cool_name n confirm gains.cool_proportional_band).1,
            (cool_gain_agree dead_band_name n confirm gains.dead_band).1,
          )
          refl),
  )
