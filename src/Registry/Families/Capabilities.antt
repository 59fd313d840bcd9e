-- ===== src/Registry/Families/Capabilities.antt =====
-- The two ways in which the code tells whether a part speaks Modbus.
use watlowlib.Base.{◌≡◌, refl}
use watlowlib.Registry.Families.{
  ControllerFamily, pm, PartNumber, pm_comms_supports_modbus, capabilities_for_family,
  capabilities_for_part_number,
}

-- On every part number, `pm_comms_supports_modbus` agrees with the Modbus bit of the decoded
-- capabilities.
pub has_modbus-capabilities_for_part_number :
    (part : PartNumber)
    → (capabilities_for_part_number part).has_modbus ≡ pm_comms_supports_modbus part
unfolding capabilities_for_part_number pm_comms_supports_modbus capabilities_for_family
has_modbus-capabilities_for_part_number part = go part.family
  where
    go :
        (f : ControllerFamily)
        → (capabilities_for_part_number (record part { family = f })).has_modbus
          ≡ pm_comms_supports_modbus (record part { family = f })
    go pm = refl
    go _ = refl
