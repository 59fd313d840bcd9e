-- ===== src/Discovery.antt =====
-- src/watlowlib/devices/discovery.py. The transports, with the session and `identify` on them, are the
-- interface `Scanner`; times and logging are not modelled.
pub mod Rows
use watlowlib.Base.{
  ℕ, List, [], ◌∷◌, ◌++◌, map, Bool, true, false, ◌&&◌, ◌||◌, not, Option, none, some, ◌==◌,
  bytes_eq, if◌then◌else◌,
}
use watlowlib.Base.Int.{ℤ, pos, ltb_ℤ}
use watlowlib.Errors.{
  Error, watlow_error, configuration_error, transport_error, watlow_timeout_error, connection_error,
  protocol_unsupported_error, timeout_error, is_a,
}
use watlowlib.Result.{Result, ok, err, stuck}
use watlowlib.Exec.{Exec, pure, raise, lift, ◌>>=◌}
use watlowlib.Devices.Session.{ProtocolKind, stdbus_kind, modbus_kind, auto_kind}
use watlowlib.Detection.{make_protocol_client}
use watlowlib.Transport.Settings.{SerialSettings, Enumerations, factory_for}

abbrev Port : Type 0
Port = List ℕ

abbrev pub default_discovery_addresses : List ℤ
default_discovery_addresses = pos 1 ∷ []

abbrev pub default_discovery_baudrates : List ℕ
default_discovery_baudrates = 38400 ∷ 19200 ∷ 9600 ∷ []

abbrev pub default_discovery_protocols : List ProtocolKind
default_discovery_protocols = stdbus_kind ∷ modbus_kind ∷ []

-- The fields of `DeviceInfo` that are read here.
pub record Identity : Type 0 where
  pub raw_part_number : List ℕ
  pub hardware_id : Option ℤ

pub record DiscoveryResult : Type 0 where
  pub is_ok : Bool
  pub port : List ℕ
  pub address : ℤ
  pub baudrate : ℕ
  pub protocol : ProtocolKind
  pub device_info : Option Identity
  pub error : Option Error

-- The fields of `DeviceProfile` that are read here, with what identification needs as `I`.
pub record DeviceProfile (T I : Type 0) : Type 0 where
  pub default_protocol : ProtocolKind
  pub default_serial : T
  pub supported_baudrates : Option (List ℕ)
  pub identity : I

-- An entry of `plan`.
pub record Entry (T I : Type 0) : Type 0 where
  pub protocol : ProtocolKind
  pub profile : DeviceProfile T I
  pub framing_base : Option T

-- The open and close of the transport of a combination, `list_serial_ports`, the identification of an
-- address within its time limit, and the disposal of its session.
pub record Scanner (T I W : Type 0) : Type 0 where
  pub list_serial_ports : Exec W (List (List ℕ))
  pub open_transport : ProtocolKind → T → Exec W (Unit {0})
  pub close : Exec W (Unit {0})
  pub identify : ProtocolKind → I → ℤ → Exec W Identity
  pub dispose : Exec W (Unit {0})

-- A `finally` block whose `WatlowError`s are dropped.
unfoldable pub after_release : {A : Type 0} → Result A → Result (Unit {0}) → Result A
after_release pending (ok done) = pending
after_release pending (err e) = if is_a e watlow_error then pending else err e
after_release pending stuck = stuck

abbrev between : ℤ → ℤ → ℤ → Bool
between low high a = not (ltb_ℤ a low) && not (ltb_ℤ high a)

-- `_PROTOCOL_ADDRESS_RANGE`
abbrev pub address_in_range : ProtocolKind → ℤ → Bool
address_in_range stdbus_kind a = between (pos 1) (pos 16) a
address_in_range modbus_kind a = between (pos 1) (pos 247) a
address_in_range auto_kind a = true

abbrev pub is_modbus : ProtocolKind → Bool
is_modbus stdbus_kind = false
is_modbus modbus_kind = true
is_modbus auto_kind = false

abbrev pub is_auto : ProtocolKind → Bool
is_auto stdbus_kind = false
is_auto modbus_kind = false
is_auto auto_kind = true

abbrev nothing_read : List ℕ → Option ℤ → Bool
nothing_read [] none = true
nothing_read [] (some n) = false
nothing_read (c ∷ rest) id = false

abbrev pub silent : Identity → Bool
silent info = nothing_read info.raw_part_number info.hardware_id

-- The handlers around `identify`: the information, or the error of the row.
unfoldable pub identified : Result Identity → Result (Option Identity × Option Error)
identified (ok info) = ok (some info, none)
identified (err e) =
    if is_a e timeout_error
    then ok (none, some watlow_timeout_error)
    else if is_a e protocol_unsupported_error || is_a e transport_error
    then ok (none, some e)
    else err e
identified stuck = stuck

abbrev pub demoted : Option Identity × Option Error → Option Identity × Option Error
demoted (none, error) = (none, error)
demoted (some info, error) =
    if silent info then (none, some watlow_timeout_error) else (some info, error)

abbrev is_some : Option Identity → Bool
is_some none = false
is_some (some info) = true

abbrev pub row : Port → ℕ → ProtocolKind → ℤ → Option Identity × Option Error → DiscoveryResult
row port baud kind address found = record {
  is_ok = is_some found.0;
  port = port;
  address = address;
  baudrate = baud;
  protocol = kind;
  device_info = found.0;
  error = found.1;
}

-- A row for each address, with the same error.
abbrev pub error_rows : Port → ℕ → ProtocolKind → Error → List ℤ → List DiscoveryResult
error_rows port baud kind e addresses = map (λ a. row port baud kind a (none, some e)) addresses

abbrev pub row_of :
    Port → ℕ → ProtocolKind → ℤ → Result (Option Identity × Option Error) → Result DiscoveryResult
row_of port baud kind address (ok found) = ok (row port baud kind address (demoted found))
row_of port baud kind address (err e) = err e
row_of port baud kind address stuck = stuck

abbrev pub with_flag : Bool → Result (List DiscoveryResult) → Result (List DiscoveryResult × Bool)
with_flag died (ok rows) = ok (rows, died)
with_flag died (err e) = err e
with_flag died stuck = stuck

abbrev pub port_in : Port → List Port → Bool
port_in port [] = false
port_in port (p ∷ ports) = bytes_eq p port || port_in port ports

abbrev baud_in : ℕ → List ℕ → Bool
baud_in baud [] = false
baud_in baud (b ∷ bauds) = b == baud || baud_in baud bauds

-- Is the combination left out by the baud rates of the profile?
abbrev pub unsupported : ℕ → Option (List ℕ) → Bool
unsupported baud none = false
unsupported baud (some bauds) = not (baud_in baud bauds)

module _ {B P S : Type 0} (enums : Enumerations B P S) where
  abbrev pub overridden :
      ℕ → Option (SerialSettings B P S) → SerialSettings B P S → SerialSettings B P S
  overridden baud none factory = record factory { baudrate = baud }
  overridden baud (some template) factory = record factory {
    baudrate = baud;
    bytesize = template.bytesize;
    parity = template.parity;
    stopbits = template.stopbits;
    rtscts = template.rtscts;
    xonxoff = template.xonxoff;
    exclusive = template.exclusive;
  }

  abbrev pub framing :
      Port → ProtocolKind → Option (SerialSettings B P S) → Result (SerialSettings B P S)
  framing port kind none = factory_for enums kind port
  framing port kind (some base) = ok (record base { port = port })

module _ {T I W : Type 0} (sc : Scanner T I W) where
  unfoldable pub probe_address : Port → ℕ → ProtocolKind → I → ℤ → Exec W DiscoveryResult
  probe_address port baud kind identity address =
      if address_in_range kind address
      then (lift (make_protocol_client kind (is_modbus kind)) >>= λ client w.
          let (named, w') = sc.identify kind identity address w in
          let (disposed, w'') = sc.dispose w' in
          (row_of port baud kind address (after_release (identified named) disposed), w''))
      else pure (row port baud kind address (none, some configuration_error))

  unfoldable pub probe_addresses :
      Port → ℕ → ProtocolKind → I → List ℤ → Exec W (List DiscoveryResult)
  probe_addresses port baud kind identity [] = pure []
  probe_addresses port baud kind identity (a ∷ addresses) =
      probe_address port baud kind identity a >>= λ r.
      probe_addresses port baud kind identity addresses >>= λ rows. pure (r ∷ rows)

  -- `_probe_combo` once the transport was opened, or an exception was raised.
  unfoldable pub combo_after :
      Port
      → ℕ
      → ProtocolKind
      → I
      → List ℤ
      → Result (Unit {0})
      → Exec W (List DiscoveryResult × Bool)
  combo_after port baud kind identity addresses (ok done) w =
      let (rows, w') = probe_addresses port baud kind identity addresses w in
      let (closed, w'') = sc.close w' in (with_flag false (after_release rows closed), w'')
  combo_after port baud kind identity addresses (err e) w =
      if is_a e connection_error
      then (ok (error_rows port baud kind e addresses, true), w)
      else if is_a e watlow_error
      then (ok (error_rows port baud kind e addresses, false), w)
      else (err e, w)
  combo_after port baud kind identity addresses stuck w = (stuck, w)

  unfoldable pub probe_combo :
      Port → ℕ → ProtocolKind → I → List ℤ → T → Exec W (List DiscoveryResult × Bool)
  probe_combo port baud kind identity addresses settings w =
      let (opened, w') = sc.open_transport kind settings w in
      combo_after port baud kind identity addresses opened w'

-- A loop of `find_devices`: its rows, and the dead ports behind it.
unfoldable pub sweep :
    {A W : Type 0}
    → (A → List Port → Exec W (List DiscoveryResult × List Port))
    → List A
    → List Port
    → Exec W (List DiscoveryResult × List Port)
sweep scan [] dead = pure ([], dead)
sweep scan (a ∷ rest) dead =
    scan a dead >>= λ x. sweep scan rest x.1 >>= λ y. pure (x.0 ++ y.0, y.1)

module _ {B P S I W : Type 0} (enums : Enumerations B P S)
    (sc : Scanner (SerialSettings B P S) I W) where
  -- `_build_settings`
  unfoldable pub build_settings :
      Port
      → ℕ
      → ProtocolKind
      → Option (SerialSettings B P S)
      → Option (SerialSettings B P S)
      → Exec W (SerialSettings B P S)
  build_settings port baud kind template base = lift (framing enums port kind base) >>= λ factory.
      pure (overridden enums baud template factory)

  -- The body of the loops.
  unfoldable pub scan_entry :
      Bool
      → List ℤ
      → Option (SerialSettings B P S)
      → Port
      → ℕ
      → Entry (SerialSettings B P S) I
      → List Port
      → Exec W (List DiscoveryResult × List Port)
  scan_entry prune addresses template port baud entry dead =
      if prune && unsupported baud entry.profile.supported_baudrates
      then pure ([], dead)
      else if port_in port dead
      then pure (error_rows port baud entry.protocol connection_error addresses, dead)
      else build_settings port baud entry.protocol template entry.framing_base >>= λ settings.
          probe_combo sc port baud entry.protocol entry.profile.identity addresses settings >>= λ x.
          pure (x.0, if x.1 then port ∷ dead else dead)

module _ {T I : Type 0} (ezzone_profile : DeviceProfile T I) where
  abbrev pub by_profile : List (DeviceProfile T I) → List (Entry T I)
  by_profile profiles =
      map
        (λ p. record {
          protocol = p.default_protocol;
          profile = p;
          framing_base = some p.default_serial;
        })
        profiles

  abbrev pub by_protocol : List ProtocolKind → List (Entry T I)
  by_protocol kinds =
      map (λ k. record { protocol = k; profile = ezzone_profile; framing_base = none }) kinds

  -- `ProtocolKind.AUTO in resolved_protocols`
  abbrev pub has_auto : List ProtocolKind → Bool
  has_auto [] = false
  has_auto (k ∷ kinds) = is_auto k || has_auto kinds

  abbrev checked_plan : List ProtocolKind → Result (List (Entry T I))
  checked_plan kinds = if has_auto kinds then err configuration_error else ok (by_protocol kinds)

  unfoldable pub plan_of :
      Option (List ProtocolKind) → Option (List (DeviceProfile T I)) → Result (List (Entry T I))
  plan_of kinds (some profiles) = ok (by_profile profiles)
  plan_of none none = checked_plan default_discovery_protocols
  plan_of (some kinds) none = checked_plan kinds

abbrev pub or_default : {A : Type 0} → A → Option A → A
or_default a none = a
or_default a (some b) = b

abbrev pub is_default : {A : Type 0} → Option A → Bool
is_default none = true
is_default (some a) = false

module _ {B P S I W : Type 0} (enums : Enumerations B P S) (sc : Scanner (SerialSettings B P S) I W)
    (ezzone_profile : DeviceProfile (SerialSettings B P S) I) where
  abbrev pub resolve_ports : Option (List Port) → Exec W (List Port)
  resolve_ports none = sc.list_serial_ports
  resolve_ports (some ports) = pure ports

  -- The three loops.
  abbrev pub scan_ports :
      Bool
      → List ℤ
      → Option (SerialSettings B P S)
      → List ℕ
      → List (Entry (SerialSettings B P S) I)
      → List Port
      → Exec W (List DiscoveryResult × List Port)
  scan_ports prune addresses template bauds plan ports =
      sweep
        (λ port.
          sweep (λ baud. sweep (scan_entry enums sc prune addresses template port baud) plan) bauds)
        ports []

  -- Is the time limit positive?
  unfoldable pub find_devices :
      Bool
      → Option (List Port)
      → Option (List ℤ)
      → Option (List ℕ)
      → Option (List ProtocolKind)
      → Option (List (DeviceProfile (SerialSettings B P S) I))
      → Option (SerialSettings B P S)
      → Exec W (List DiscoveryResult)
  find_devices positive ports addresses bauds kinds profiles template =
      if not positive
      then raise configuration_error
      else resolve_ports ports >>= λ found. lift (plan_of ezzone_profile kinds profiles) >>= λ plan.
          scan_ports (is_default bauds) (or_default default_discovery_addresses addresses) template
            (or_default default_discovery_baudrates bauds) plan found
          >>= λ x. pure x.0
