-- ===== src/Tests/Maintenance.antt =====
-- Maintenance on a bench that counts calls.
use watlowlib.Base.{ℕ, ◌+◌, ◌≡◌, refl, [], ◌∷◌, true, false, some}
use watlowlib.Base.Text.{codes}
use watlowlib.Base.Int.{pos, ltb_ℤ}
use watlowlib.Errors.{configuration_error}
use watlowlib.Result.{ok, err}
use watlowlib.Devices.Session.{stdbus_kind, modbus_kind}
use watlowlib.Registry.Families.{pm, PartNumber, pm_comms_code, capabilities_for_part_number}
use watlowlib.Transport.Settings.{SerialSettings, Enumerations, default_settings}
use watlowlib.Maintenance.{
  healthy, DeviceInfo, Bench, check_address, after_exit, with_controller, opened_with, verify,
  written_and_verified, change_modbus_address, change_protocol_mode,
}
use watlowlib.Maintenance.Steps.{IsOpened, change_modbus_address-IsOpened}
use watlowlib.Maintenance.Gate.{no_stack, change_protocol_mode_refused}

abbrev pub enums : Enumerations ℕ ℕ ℕ
enums = record { eight = 8; no_parity = 0; even = 2; one_bit = 1 }

abbrev pub framing : SerialSettings ℕ ℕ ℕ
framing = default_settings enums (codes "COM1")

-- PM3R1CA-AAAAAAA has Standard Bus only.
abbrev stdbus_part : PartNumber
stdbus_part = record {
  raw = codes "PM3R1CA-AAAAAAA";
  family = pm;
  details = (codes "options", codes "AAAAAAA") ∷ [];
}

abbrev stdbus_info : DeviceInfo
stdbus_info = record {
  part_number = stdbus_part;
  capabilities = capabilities_for_part_number stdbus_part;
  health = healthy;
}

abbrev counting : Bench (SerialSettings ℕ ℕ ℕ) ℕ ℕ
counting = record {
  open_device = λ kind address settings n. (ok 9, n + 1);
  write_parameter = λ ctl parameter value n. (ok tt, n + 10);
  identify = λ ctl strict n. (ok stdbus_info, n + 100);
  close = λ ctl n. (ok tt, n + 1000);
  sleep = λ n. n;
}

moved : change_modbus_address counting (pos 5) (pos 1) framing true 0 ≡ (ok stdbus_info, 2112)
unfolding change_modbus_address check_address written_and_verified verify opened_with
    with_controller after_exit
moved = refl

change_modbus_address-IsOpened_example :
    (true ≡ true)
    × (ltb_ℤ (pos 5) (pos 1) ≡ false)
    × (ltb_ℤ (pos 247) (pos 5) ≡ false)
    × ((between : ℕ) × IsOpened counting modbus_kind
          (pos 1)
          framing
          (λ ctl. counting.write_parameter ctl 17007 (pos 5))
          tt
          0
          between
        × IsOpened counting modbus_kind
            (pos 5)
            framing
            (λ ctl. counting.identify ctl true)
            stdbus_info
            (counting.sleep between)
            2112)
change_modbus_address-IsOpened_example =
    change_modbus_address-IsOpened counting (pos 5) (pos 1) framing true stdbus_info 0 2112 moved

stdbus_code : pm_comms_code stdbus_part ≡ some b'A'
unfolding pm_comms_code
stdbus_code = refl

change_protocol_mode_refused_example :
    change_protocol_mode enums counting
      (codes "COM1")
      modbus_kind
      stdbus_kind
      (pos 1)
      framing
      true
      0
    ≡ (err configuration_error, 1101)
change_protocol_mode_refused_example =
    change_protocol_mode_refused enums counting (codes "COM1") stdbus_kind (pos 1) framing 9
      stdbus_info 0 1 101 1101 refl refl (no_stack b'A' refl stdbus_code refl) refl
