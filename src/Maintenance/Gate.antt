-- ===== src/Maintenance/Gate.antt =====
-- The check of `change_protocol_mode` ahead of its write, with the capabilities of a part number.
use watlowlib.Base.{ℕ, ◌≡◌, refl, ap, ◌∙◌, List, true, false, some}
use watlowlib.Base.Text.{char_in}
use watlowlib.Base.Int.{ℤ}
use watlowlib.Errors.{configuration_error}
use watlowlib.Result.{ok, err}
use watlowlib.Devices.Session.{ProtocolKind, modbus_kind}
use watlowlib.Registry.Families.{
  PartNumber, pm_comms_code, pm_comms_modbus, code_in, pm_comms_supports_modbus,
  capabilities_for_part_number,
}
use watlowlib.Registry.Families.Capabilities.{has_modbus-capabilities_for_part_number}
use watlowlib.Transport.Settings.{SerialSettings, Enumerations}
use watlowlib.Maintenance.{
  DeviceHealth, healthy, partial_health, failed_health, DeviceInfo, Bench, protocol_mode_code,
  check_mode, check_code, check_health, check_sku_supports_protocol, after_exit, with_controller,
  opened_with, write_mode, change_protocol_mode,
}

-- The part number was not read; or it has a communications code that does not stand for Modbus, and the
-- capabilities are those that are decoded from it, as `identify` does.
pub data LacksModbus (info : DeviceInfo) : Type 0 where
  no_identity : info.health ≡ failed_health → LacksModbus info
  no_stack :
      (code : ℕ)
      → info.capabilities ≡ capabilities_for_part_number info.part_number
      → pm_comms_code info.part_number ≡ some code
      → char_in code pm_comms_modbus ≡ false
      → LacksModbus info

no_modbus :
    (part : PartNumber) (code : ℕ)
    → pm_comms_code part ≡ some code
    → char_in code pm_comms_modbus ≡ false
    → (capabilities_for_part_number part).has_modbus ≡ false
unfolding pm_comms_supports_modbus
no_modbus part code e h =
    has_modbus-capabilities_for_part_number part ∙ (ap (λ c. code_in c pm_comms_modbus) e ∙ h)

failed_refuses :
    (health : DeviceHealth)
    → check_health (err configuration_error) health ≡ err configuration_error
unfolding check_health
failed_refuses healthy = refl
failed_refuses partial_health = refl
failed_refuses failed_health = refl

refuses :
    (info : DeviceInfo)
    → LacksModbus info
    → check_sku_supports_protocol info modbus_kind ≡ err configuration_error
unfolding check_sku_supports_protocol check_code check_health
refuses info (no_identity e) = rw e refl
refuses info (no_stack code same e h) =
    rw e (rw same (rw (no_modbus info.part_number code e h) (failed_refuses info.health)))

module _ {B P S C W : Type 0} (enums : Enumerations B P S)
    (bench : Bench (SerialSettings B P S) C W) where
  -- Where the device cannot be identified, or its part number shows that it has no Modbus, a confirmed
  -- switch to Modbus raises a `WatlowConfigurationError`, and nothing is written: the controller is
  -- opened, identified and closed, and that is all.
  pub change_protocol_mode_refused :
      (port : List ℕ) (current : ProtocolKind) (address : ℤ) (settings : SerialSettings B P S)
      (ctl : C) (info : DeviceInfo) (w begun ended w' : W)
      → bench.open_device current address settings w ≡ (ok ctl, begun)
      → bench.identify ctl false begun ≡ (ok info, ended)
      → LacksModbus info
      → bench.close ctl ended ≡ (ok tt, w')
      → change_protocol_mode enums bench port modbus_kind current address settings true w
        ≡ (err configuration_error, w')
  unfolding change_protocol_mode check_mode protocol_mode_code opened_with with_controller
      write_mode after_exit
  change_protocol_mode_refused port current address settings ctl info w begun ended w' opens named
        lacks closes =
      rw opens (rw named (rw (refuses info lacks) (rw closes refl)))
