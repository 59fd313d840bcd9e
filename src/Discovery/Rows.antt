-- ===== src/Discovery/Rows.antt =====
-- Which rows `find_devices` returns.
use watlowlib.Base.{
  ℕ, ◌≡◌, ◌⊎◌, ◌||◌, refl, ap, ◌∙◌, List, [], ◌∷◌, ◌++◌, map, Bool, true, false, ◌&&◌, Option, none,
  some, All, Bool-cases, inl, inr, if◌then◌else◌,
}
use watlowlib.Base.Int.{ℤ}
use watlowlib.Errors.{
  Error, connection_error, timeout_error, watlow_timeout_error, protocol_unsupported_error,
  transport_error, configuration_error, is_a,
}
use watlowlib.Result.{Result, ok, err, stuck}
use watlowlib.Exec.{Exec}
use watlowlib.Devices.Session.{ProtocolKind, stdbus_kind, modbus_kind, auto_kind}
use watlowlib.Detection.{make_protocol_client}
use watlowlib.Modbus.Client.{RaisesTyped}
use watlowlib.Transport.Settings.{SerialSettings, Enumerations, factory_for}
use watlowlib.Discovery.{
  Identity, DiscoveryResult, DeviceProfile, Entry, Scanner, after_release, is_auto, is_modbus,
  address_in_range, identified, demoted, row, error_rows, port_in, unsupported, probe_address,
  probe_addresses, combo_after, probe_combo, sweep, build_settings, scan_entry, plan_of,
  find_devices, is_default, or_default, default_discovery_addresses, default_discovery_baudrates,
}

-- What identifies a row: the port, the baud rate, the protocol and the address.
abbrev pub Key : Type 0
Key = List ℕ × ℕ × ProtocolKind × ℤ

abbrev pub key : DiscoveryResult → Key
key r = (r.port, r.baudrate, r.protocol, r.address)

-- The keys of a loop.
abbrev pub flat_map : {A : Type 0} → (A → List Key) → List A → List Key
flat_map f [] = []
flat_map f (a ∷ rest) = f a ++ flat_map f rest

module _ {T I : Type 0} where
  -- The keys of an entry: none where the baud rate is left out, else one for each address.
  abbrev pub entry_keys : Bool → List ℤ → List ℕ → ℕ → Entry T I → List Key
  entry_keys prune addresses port baud entry =
      if prune && unsupported baud entry.profile.supported_baudrates
      then []
      else map (λ a. (port, baud, entry.protocol, a)) addresses

  -- The combinations in the order of the loops: port, baud rate, protocol, address.
  abbrev pub planned : Bool → List ℤ → List ℕ → List (Entry T I) → List (List ℕ) → List Key
  planned prune addresses bauds plan ports =
      flat_map
        (λ port. flat_map (λ baud. flat_map (entry_keys prune addresses port baud) plan) bauds)
        ports

map-++ : (xs ys : List DiscoveryResult) → map key (xs ++ ys) ≡ map key xs ++ map key ys
map-++ [] ys = refl
map-++ (x ∷ xs) ys = ap (λ l. key x ∷ l) (map-++ xs ys)

-- A call returns rows with these keys.
abbrev pub Lists : {A W : Type 0} → List Key → Result (List DiscoveryResult × A) × W → Type 0
Lists {A} {W} keys x =
    (rows : List DiscoveryResult) × (a : A) × (w : W) × (x ≡ (ok (rows, a), w))
    × (map key rows ≡ keys)

-- The identification returns, or raises one of three: `TimeoutError`, as `anyio.fail_after` does, a
-- `WatlowProtocolUnsupportedError`, or a `WatlowTransportError`.
abbrev pub IdentifyRaises : Result Identity → Type 0
IdentifyRaises (ok info) = Unit {0}
IdentifyRaises (err e) =
    (e ≡ timeout_error)
    ⊎ (is_a e protocol_unsupported_error ≡ true)
    ⊎ (is_a e transport_error ≡ true)
IdentifyRaises stuck = ⊥

-- A timeout, once caught, is an error of the row, and so are the other two.
identified-ok :
    (r : Result Identity)
    → IdentifyRaises r
    → (found : Option Identity × Option Error) × (identified r ≡ ok found)
unfolding identified
identified-ok (ok info) h = (_, refl)
identified-ok (err e) h = elim (Bool-cases (is_a e timeout_error)) [
  | inl late ↦ ((none, some watlow_timeout_error), rw late refl)
  | inr other ↦ ((none, some e), rw other (rw (handled e other h) refl))
]
  where
    handled :
        (e : Error)
        → is_a e timeout_error ≡ false
        → IdentifyRaises (err e)
        → (is_a e protocol_unsupported_error || is_a e transport_error) ≡ true
    handled e other (inl same) = cc (same, other)
    handled e other (inr (inl lacking)) = rw lacking refl
    handled e other (inr (inr transport)) = elim (Bool-cases (is_a e protocol_unsupported_error)) [
      | inl u ↦ rw u refl
      | inr u ↦ rw u transport
    ]
identified-ok stuck h = elim h [ ]

-- The open, the close and the disposal return or raise `WatlowError`s, and the identification returns, or
-- it raises an error of the transport, that the protocol is not supported, or that its time is over.
pub record IsTypedScanner {T I W : Type 0} (sc : Scanner T I W) : Type 0 where
  pub opens : (k : ProtocolKind) (t : T) (w : W) → RaisesTyped (sc.open_transport k t w).0
  pub closes : (w : W) → RaisesTyped (sc.close w).0
  pub disposes : (w : W) → RaisesTyped (sc.dispose w).0
  pub identifies :
      (k : ProtocolKind) (i : I) (a : ℤ) (w : W) → IdentifyRaises (sc.identify k i a w).0

sweep-Lists :
    {A W : Type 0} (scan : A → List (List ℕ) → Exec W (List DiscoveryResult × List (List ℕ)))
    (keys : A → List Key) (Fits : A → Type 0)
    → ((a : A) (dead : List (List ℕ)) (w : W) → Fits a → Lists (keys a) (scan a dead w))
    → (xs : List A) (dead : List (List ℕ)) (w : W) → All Fits xs
    → Lists (flat_map keys xs) (sweep scan xs dead w)
unfolding sweep
sweep-Lists scan keys Fits each [] dead w fits = ([], dead, w, refl, refl)
sweep-Lists scan keys Fits each (a ∷ xs) dead w (fit, fits) =
    let (rows, dead', w', e, k) = each a dead w fit in
    let (rows', dead'', w'', e', k') = sweep-Lists scan keys Fits each xs dead' w' fits in
    (
      rows ++ rows',
      dead'',
      w'',
      rw e (rw e' refl),
      map-++ rows rows' ∙ (ap (λ l. l ++ map key rows') k ∙ ap (λ l. keys a ++ l) k'),
    )

released :
    {A : Type 0} (a : A) (r : Result (Unit {0})) → RaisesTyped r → after_release (ok a) r ≡ ok a
unfolding after_release
released a (ok done) t = refl
released a (err e) t = rw t refl
released a stuck t = elim t [ ]

client_made : (k : ProtocolKind) → is_auto k ≡ false → make_protocol_client k (is_modbus k) ≡ ok k
unfolding make_protocol_client
client_made stdbus_kind h = refl
client_made modbus_kind h = refl
client_made auto_kind h = cc

module _ {T I W : Type 0} (sc : Scanner T I W) (t : IsTypedScanner sc) (port : List ℕ) (baud : ℕ)
    (kind : ProtocolKind) (identity : I) (concrete : is_auto kind ≡ false) where
  probe_address-key :
      (a : ℤ) (w : W)
      → (r : DiscoveryResult) × (w' : W) × (probe_address sc port baud kind identity a w
          ≡ (ok r, w'))
        × (key r ≡ (port, baud, kind, a))
  unfolding probe_address
  probe_address-key a w = elim (Bool-cases (address_in_range kind a)) [
    | inl fits ↦
        let (found, e) =
          identified-ok (sc.identify kind identity a w).0 (t.identifies kind identity a w) in
        let between = (sc.identify kind identity a w).1 in
        (
          row port baud kind a (demoted found),
          (sc.dispose between).1,
          rw fits (
              rw (client_made kind concrete)
                (rw e (rw (released found (sc.dispose between).0 (t.disposes between)) refl))),
          refl,
        )
    | inr out ↦ (row port baud kind a (none, some configuration_error), w, rw out refl, refl)
  ]

  probe_addresses-keys :
      (addresses : List ℤ) (w : W)
      → (rows : List DiscoveryResult) × (w' : W) × (probe_addresses sc port baud kind identity
            addresses w
          ≡ (ok rows, w'))
        × (map key rows ≡ map (λ a. (port, baud, kind, a)) addresses)
  unfolding probe_addresses
  probe_addresses-keys [] w = ([], w, refl, refl)
  probe_addresses-keys (a ∷ addresses) w =
      let (r, w', e, k) = probe_address-key a w in
      let (rows, w'', e', k') = probe_addresses-keys addresses w' in
      (
        r ∷ rows,
        w'',
        rw e (rw e' refl),
        ap (λ x. x ∷ map key rows) k ∙ ap (λ l. (port, baud, kind, a) ∷ l) k',
      )

error_rows-keys :
    (port : List ℕ) (baud : ℕ) (kind : ProtocolKind) (e : Error) (addresses : List ℤ)
    → map key (error_rows port baud kind e addresses) ≡ map (λ a. (port, baud, kind, a)) addresses
error_rows-keys port baud kind e [] = refl
error_rows-keys port baud kind e (a ∷ addresses) =
    ap (λ l. (port, baud, kind, a) ∷ l) (error_rows-keys port baud kind e addresses)

module _ {T I W : Type 0} (sc : Scanner T I W) (t : IsTypedScanner sc) (port : List ℕ) (baud : ℕ)
    (kind : ProtocolKind) (identity : I) (concrete : is_auto kind ≡ false)
    (addresses : List ℤ) where
  combo_after-Lists :
      (opened : Result (Unit {0})) (w : W)
      → RaisesTyped opened
      → Lists
          (map (λ a. (port, baud, kind, a)) addresses)
          (combo_after sc port baud kind identity addresses opened w)
  unfolding combo_after
  combo_after-Lists (ok done) w typed =
      let (rows, w', e, k) =
        probe_addresses-keys sc t port baud kind identity concrete addresses w in
      (
        rows,
        false,
        (sc.close w').1,
        rw e (rw (released rows (sc.close w').0 (t.closes w')) refl),
        k,
      )
  combo_after-Lists (err e) w typed = elim (Bool-cases (is_a e connection_error)) [
    | inl dead ↦ (
      error_rows port baud kind e addresses,
      true,
      w,
      rw dead refl,
      error_rows-keys port baud kind e addresses,
    )
    | inr alive ↦ (
      error_rows port baud kind e addresses,
      false,
      w,
      rw alive (rw typed refl),
      error_rows-keys port baud kind e addresses,
    )
  ]
  combo_after-Lists stuck w typed = elim typed [ ]

anything : {A : Type 0} (xs : List A) → All (λ _. Unit {0}) xs
anything [] = tt
anything (x ∷ xs) = (tt, anything xs)

module _ {B P S I W : Type 0} (enums : Enumerations B P S) (sc : Scanner (SerialSettings B P S) I W)
    (t : IsTypedScanner sc) where
  settings_built :
      (port : List ℕ) (baud : ℕ) (kind : ProtocolKind)
      (template base : Option (SerialSettings B P S)) (w : W)
      → is_auto kind ≡ false
      → (settings : SerialSettings B P S) × (build_settings enums sc port baud kind template base w
          ≡ (ok settings, w))
  unfolding build_settings factory_for
  settings_built port baud kind template (some base) w h = (_, refl)
  settings_built port baud stdbus_kind template none w h = (_, refl)
  settings_built port baud modbus_kind template none w h = (_, refl)
  settings_built port baud auto_kind template none w h = cc

  scan_entry-Lists :
      (prune : Bool) (addresses : List ℤ) (template : Option (SerialSettings B P S)) (port : List ℕ)
      (baud : ℕ) (entry : Entry (SerialSettings B P S) I) (dead : List (List ℕ)) (w : W)
      → is_auto entry.protocol ≡ false
      → Lists
          (entry_keys prune addresses port baud entry)
          (scan_entry enums sc prune addresses template port baud entry dead w)
  unfolding scan_entry probe_combo
  scan_entry-Lists prune addresses template port baud entry dead w concrete =
      elim (Bool-cases (prune && unsupported baud entry.profile.supported_baudrates)) [
        | inl out ↦ ([], dead, w, rw out refl, rw out refl)
        | inr kept ↦ elim (Bool-cases (port_in port dead)) [
          | inl gone ↦ (
            error_rows port baud entry.protocol connection_error addresses,
            dead,
            w,
            rw kept (rw gone refl),
            rw kept (error_rows-keys port baud entry.protocol connection_error addresses),
          )
          | inr alive ↦
              let (settings, made) =
                settings_built port baud entry.protocol template entry.framing_base w concrete in
              let opened = sc.open_transport entry.protocol settings w in
              let (rows, died, w', e, k) =
                combo_after-Lists sc t port baud entry.protocol entry.profile.identity concrete
                  addresses opened.0 opened.1 (t.opens entry.protocol settings w) in
              (
                rows,
                (if died then port ∷ dead else dead),
                w',
                rw kept (rw alive (rw made (rw e refl))),
                rw kept k,
              )
        ]
      ]

  -- `find_devices` raises nothing, and returns one row for each combination of a port, a baud rate, an
  -- entry of the plan and an address, in this order, less those that the default baud rates leave out:
  -- whichever ports fail to open, addresses are out of range, and devices are silent. This holds for a
  -- positive time limit, given ports and a plan without AUTO, where the identification raises only
  -- time-outs, errors of the transport and that the protocol is not supported, and all else
  -- `WatlowError`s.
  pub find_devices-Lists :
      (ezzone_profile : DeviceProfile (SerialSettings B P S) I) (ports : List (List ℕ))
      (addresses : Option (List ℤ)) (bauds : Option (List ℕ)) (kinds : Option (List ProtocolKind))
      (profiles : Option (List (DeviceProfile (SerialSettings B P S) I)))
      (template : Option (SerialSettings B P S)) (plan : List (Entry (SerialSettings B P S) I))
      (w : W)
      → plan_of ezzone_profile kinds profiles ≡ ok plan
      → All (λ entry. is_auto entry.protocol ≡ false) plan
      → (rows : List DiscoveryResult) × (w' : W) × (find_devices enums sc ezzone_profile true
            (some ports)
            addresses
            bauds
            kinds
            profiles
            template
            w
          ≡ (ok rows, w'))
        × (map key rows
            ≡ planned
                (is_default bauds)
                (or_default default_discovery_addresses addresses)
                (or_default default_discovery_baudrates bauds)
                plan
                ports)
  unfolding find_devices
  find_devices-Lists ezzone_profile ports addresses bauds kinds profiles template plan w planned_
        concrete =
      let prune = is_default bauds in
      let every = or_default default_discovery_addresses addresses in
      let rates = or_default default_discovery_baudrates bauds in
      let scan_baud : List ℕ → ℕ → List (List ℕ) → Exec W (List DiscoveryResult × List (List ℕ)) =
        λ port baud. sweep (scan_entry enums sc prune every template port baud) plan in
      let keys_baud : List ℕ → ℕ → List Key =
        λ port baud. flat_map (entry_keys prune every port baud) plan in
      let (rows, dead, w', e, k) =
        sweep-Lists (λ port. sweep (scan_baud port) rates) (λ port. flat_map (keys_baud port) rates)
          (λ _. Unit {0})
          (λ port dead w u.
            sweep-Lists (scan_baud port) (keys_baud port) (λ _. Unit {0})
              (λ baud dead w u.
                sweep-Lists (scan_entry enums sc prune every template port baud)
                  (entry_keys prune every port baud) (λ entry. is_auto entry.protocol ≡ false)
                  (scan_entry-Lists prune every template port baud) plan dead w concrete)
              rates dead w (anything rates))
          ports [] w (anything ports) in
      (rows, w', rw planned_ (rw e refl), k)
