-- ===== src/Maintenance.antt =====
-- src/watlowlib/maintenance.py. `open_device` and what is called of a controller are the interface
-- `Bench`; logging and time-outs are not modelled.
pub mod Steps
pub mod Gate
use watlowlib.Base.{
  ℕ, List, [], ◌∷◌, Bool, true, false, ◌&&◌, not, Option, none, some, ◌==◌, if◌then◌else◌,
}
use watlowlib.Base.Int.{ℤ, pos, ltb_ℤ}
use watlowlib.Errors.{configuration_error, confirmation_required_error}
use watlowlib.Result.{Result, ok, err, stuck}
use watlowlib.Exec.{Exec, lift, ◌>>=◌}
use watlowlib.Devices.Session.{ProtocolKind, stdbus_kind, modbus_kind, auto_kind}
use watlowlib.Registry.Families.{PartNumber, Capability, pm_comms_code}
use watlowlib.Transport.Settings.{SerialSettings, Enumerations, factory_for}

pub data DeviceHealth : Type 0 where
  healthy partial_health failed_health : DeviceHealth

-- The fields of `DeviceInfo` that are read here.
pub record DeviceInfo : Type 0 where
  pub part_number : PartNumber
  pub capabilities : Capability
  pub health : DeviceHealth

-- `open_device`, and `write_parameter` of instance 1 with confirmation, `identify` (is it strict?) and
-- `close` of the controller `C` that it returns; the sleep ahead of the verification.
pub record Bench (T C W : Type 0) : Type 0 where
  pub open_device : ProtocolKind → ℤ → T → Exec W C
  pub write_parameter : C → ℕ → ℤ → Exec W (Unit {0})
  pub identify : C → Bool → Exec W DeviceInfo
  pub close : C → Exec W (Unit {0})
  pub sleep : W → W

abbrev find_baud : ℕ → List (ℕ × ℤ) → Option ℤ
find_baud baud [] = none
find_baud baud ((k, code) ∷ rest) = if k == baud then some code else find_baud baud rest

abbrev pub modbus_baud_codes : List (ℕ × ℤ)
modbus_baud_codes = (9600, pos 188) ∷ (19200, pos 189) ∷ (38400, pos 190) ∷ []

unfoldable pub protocol_mode_code : ProtocolKind → Option ℤ
protocol_mode_code stdbus_kind = some (pos 1286)
protocol_mode_code modbus_kind = some (pos 1057)
protocol_mode_code auto_kind = none

abbrev is_modbus : ProtocolKind → Bool
is_modbus stdbus_kind = false
is_modbus modbus_kind = true
is_modbus auto_kind = false

abbrev code_or_refused : Option ℤ → Result ℤ
code_or_refused none = err configuration_error
code_or_refused (some code) = ok code

-- The checks at the head of the four helpers.
unfoldable pub check_baud : Bool → ℕ → ProtocolKind → Result ℤ
check_baud confirm baud current =
    let code = code_or_refused (find_baud baud modbus_baud_codes) in
    if not confirm then err confirmation_required_error else elim code [
      | err e ↦ err e
      | stuck ↦ stuck
      | ok n ↦ if is_modbus current then ok n else err configuration_error
    ]

unfoldable pub check_address : Bool → ℤ → ℤ → Result ℤ
check_address confirm highest target =
    if not confirm
    then err confirmation_required_error
    else if not (ltb_ℤ target (pos 1)) && not (ltb_ℤ highest target)
    then ok target
    else err configuration_error

unfoldable pub check_mode : Bool → ProtocolKind → Result ℤ
unfolding protocol_mode_code
check_mode confirm target =
    if not confirm
    then err confirmation_required_error
    else code_or_refused (protocol_mode_code target)

-- `_check_sku_supports_protocol`, from the health on, and from the code on.
abbrev lacks_stack : ProtocolKind → Capability → Bool
lacks_stack target caps = is_modbus target && not caps.has_modbus

unfoldable pub check_code : ProtocolKind → Capability → Option ℕ → Result (Unit {0})
check_code target caps none = ok tt
check_code target caps (some code) =
    if lacks_stack target caps then err configuration_error else ok tt

unfoldable pub check_health : Result (Unit {0}) → DeviceHealth → Result (Unit {0})
check_health otherwise healthy = otherwise
check_health otherwise partial_health = otherwise
check_health otherwise failed_health = err configuration_error

unfoldable pub check_sku_supports_protocol : DeviceInfo → ProtocolKind → Result (Unit {0})
check_sku_supports_protocol info target =
    check_health (check_code target info.capabilities (pm_comms_code info.part_number)) info.health

-- An exception of `close` takes the place of what was pending.
unfoldable pub after_exit : {A : Type 0} → Result A → Result (Unit {0}) → Result A
after_exit pending (ok done) = pending
after_exit pending (err e) = err e
after_exit pending stuck = stuck

-- `settings.port` and the other fields, at another baud rate.
abbrev pub at_baud : {B P S : Type 0} → ℕ → SerialSettings B P S → SerialSettings B P S
at_baud baud settings = record settings { baudrate = baud }

module _ {T C W : Type 0} (bench : Bench T C W) where
  -- `async with ctl:`
  unfoldable pub with_controller : {A : Type 0} → C → Exec W A → Exec W A
  with_controller ctl body w =
      let (r, w') = body w in let (closed, w'') = bench.close ctl w' in (after_exit r closed, w'')

  unfoldable pub opened_with : {A : Type 0} → ProtocolKind → ℤ → T → (C → Exec W A) → Exec W A
  opened_with kind address settings body =
      bench.open_device kind address settings >>= λ ctl. with_controller ctl (body ctl)

  -- `_verify`
  unfoldable pub verify : ProtocolKind → ℤ → T → Exec W DeviceInfo
  verify kind address settings = opened_with kind address settings (λ ctl. bench.identify ctl true)

  -- The write, the sleep and the verification.
  unfoldable pub written_and_verified :
      ProtocolKind → ℤ → T → (C → Exec W (Unit {0})) → ProtocolKind → ℤ → T → Exec W DeviceInfo
  written_and_verified kind address settings body kind' address' settings' =
      opened_with kind address settings body >>= λ done w.
      verify kind' address' settings' (bench.sleep w)

  unfoldable pub change_modbus_address : ℤ → ℤ → T → Bool → Exec W DeviceInfo
  change_modbus_address target current settings confirm =
      lift (check_address confirm (pos 247) target) >>= λ value.
      written_and_verified modbus_kind current settings
        (λ ctl. bench.write_parameter ctl 17007 value) modbus_kind target settings

  unfoldable pub change_stdbus_address : ℤ → ℤ → T → Bool → Exec W DeviceInfo
  change_stdbus_address target current settings confirm =
      lift (check_address confirm (pos 16) target) >>= λ value.
      written_and_verified stdbus_kind current settings
        (λ ctl. bench.write_parameter ctl 17001 value) stdbus_kind target settings

module _ {B P S C W : Type 0} (enums : Enumerations B P S)
    (bench : Bench (SerialSettings B P S) C W) where
  unfoldable pub change_baud :
      ℕ → ProtocolKind → ℤ → SerialSettings B P S → Bool → Exec W DeviceInfo
  change_baud target current address settings confirm =
      lift (check_baud confirm target current) >>= λ code.
      written_and_verified bench current address settings
        (λ ctl. bench.write_parameter ctl 17002 code) current address (at_baud target settings)

  -- The write of 17009, if the part can speak the protocol.
  unfoldable pub write_mode : ProtocolKind → ℤ → C → Exec W (Unit {0})
  write_mode target code ctl = bench.identify ctl false >>= λ info.
      lift (check_sku_supports_protocol info target) >>= λ checked.
      bench.write_parameter ctl 17009 code

  unfoldable pub change_protocol_mode :
      List ℕ → ProtocolKind → ProtocolKind → ℤ → SerialSettings B P S → Bool → Exec W DeviceInfo
  change_protocol_mode port target current address settings confirm =
      lift (check_mode confirm target) >>= λ code.
      opened_with bench current address settings (write_mode target code) >>= λ done w.
      (lift (factory_for enums target port) >>= λ settings'. verify bench target address settings')
        (bench.sleep w)
