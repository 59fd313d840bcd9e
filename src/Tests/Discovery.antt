-- ===== src/Tests/Discovery.antt =====
-- A sweep over two ports on which nothing answers.
use watlowlib.Base.{ℕ, ◌+◌, ◌≡◌, inl, refl, List, [], ◌∷◌, map, true, none, some}
use watlowlib.Base.Text.{codes}
use watlowlib.Base.Int.{pos}
use watlowlib.Errors.{timeout_error}
use watlowlib.Result.{ok, err}
use watlowlib.Devices.Session.{stdbus_kind}
use watlowlib.Transport.Settings.{SerialSettings}
use watlowlib.Discovery.{
  DiscoveryResult, DeviceProfile, Scanner, by_protocol, plan_of, find_devices,
  default_discovery_protocols, default_discovery_baudrates,
}
use watlowlib.Discovery.Rows.{key, IsTypedScanner, planned, find_devices-Lists}
use watlowlib.Tests.Maintenance.{enums, framing}

abbrev profile : DeviceProfile (SerialSettings ℕ ℕ ℕ) ℕ
profile = record {
  default_protocol = stdbus_kind;
  default_serial = framing;
  supported_baudrates = none;
  identity = 0;
}

abbrev quiet : Scanner (SerialSettings ℕ ℕ ℕ) ℕ ℕ
quiet = record {
  list_serial_ports = λ n. (ok [], n);
  open_transport = λ kind settings n. (ok tt, n + 1);
  close = λ n. (ok tt, n + 1);
  identify = λ kind identity address n. (err timeout_error, n + 1);
  dispose = λ n. (ok tt, n + 1);
}

quiet-IsTypedScanner : IsTypedScanner quiet
quiet-IsTypedScanner = record {
  opens = λ k t w. tt;
  closes = λ w. tt;
  disposes = λ w. tt;
  identifies = λ k i a w. inl refl;
}

abbrev ports : List (List ℕ)
ports = codes "COM1" ∷ codes "COM2" ∷ []

default_plan : plan_of profile none none ≡ ok (by_protocol profile default_discovery_protocols)
unfolding plan_of
default_plan = refl

find_devices-Lists_example :
    (rows : List DiscoveryResult) × (w : ℕ) × (find_devices enums quiet profile true
        (some ports)
        (some (pos 1 ∷ pos 20 ∷ []))
        none
        none
        none
        none
        0
      ≡ (ok rows, w))
    × (map key rows
        ≡ planned true
            (pos 1 ∷ pos 20 ∷ [])
            default_discovery_baudrates
            (by_protocol profile default_discovery_protocols)
            ports)
find_devices-Lists_example =
    find_devices-Lists enums quiet quiet-IsTypedScanner profile ports (some (pos 1 ∷ pos 20 ∷ []))
      none none none none (by_protocol profile default_discovery_protocols) 0 default_plan
      (refl, (refl, tt))
