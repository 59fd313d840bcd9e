-- ===== src/Devices/Session.antt =====
-- src/watlowlib/devices/session.py: `Session`. The protocol client is an interface; the lock, logging,
-- timing and the cached unit labels are not modelled.
use watlowlib.Base.{
  ℕ, ◌≡◌, List, [], ◌∷◌, ◌++◌, Bool, true, false, ◌&&◌, not, Option, none, some, if◌then◌else◌,
}
use watlowlib.Errors.{
  Error, watlow_error, protocol_error, protocol_unsupported_error, no_such_object_error,
  no_such_attribute_error, confirmation_required_error, is_a, caught_by,
}
use watlowlib.Result.{Result, ok, err, stuck}
use watlowlib.Exec.{Exec}
use watlowlib.Registry.Spec.{Name, ParameterSpec, SafetyTier, persistent, read_only, stateful}
use watlowlib.Registry.Index.{ParameterRegistry, get_name, Target, by_name, by_id, resolve}
use watlowlib.Commands.Command.{Command, Variant}
pub mod Frame
pub mod Sticky

-- `class Availability`
pub data Availability : Type 0 where
  unknown supported unsupported : Availability

-- `class ProtocolKind`; a client is never of the kind AUTO.
pub data ProtocolKind : Type 0 where
  stdbus_kind modbus_kind auto_kind : ProtocolKind

-- What a session uses of a client with state `C`.
pub record ProtocolClient (C W P : Type 0) : Type 0 where
  pub kind : ProtocolKind
  pub execute : W → ℕ → Exec C P

-- The last error is the exception of which the code keeps the context.
pub record Session (F C : Type 0) : Type 0 where
  pub client : C
  pub registry : ParameterRegistry F
  pub address : ℕ
  pub cache : List (Name × Availability)
  pub last_error : Option Error

unfoldable pub lookup : Name → List (Name × Availability) → Availability
unfolding get_name
lookup key cache = elim (get_name key cache) [ none ↦ unknown | some a ↦ a ]

module _ {F C : Type 0} where
  -- `self._availability.get(…, Availability.UNKNOWN)`
  unfoldable pub availability : Session F C → Name → Availability
  availability s key = lookup key s.cache

  unfoldable pub set_availability : Name → Availability → Session F C → Session F C
  set_availability key a s = record s { cache = (key, a) ∷ s.cache }

  unfoldable pub record_error : Error → Session F C → Session F C
  record_error e s = record s { last_error = some e }

  unfoldable pub clear_last_error : Session F C → Session F C
  clear_last_error s = record s { last_error = none }

  unfoldable pub bind_registry : ParameterRegistry F → Session F C → Session F C
  bind_registry r s = record s { registry = r }

-- The exceptions on which a command is marked unsupported.
abbrev pub absence : Error → Bool
absence =
    caught_by (no_such_object_error ∷ no_such_attribute_error ∷ protocol_unsupported_error ∷ [])

abbrev pub is_unsupported : Availability → Bool
is_unsupported unknown = false
is_unsupported supported = false
is_unsupported unsupported = true

abbrev pub is_persistent : SafetyTier → Bool
is_persistent read_only = false
is_persistent stateful = false
is_persistent persistent = true

-- `f"{command_name}:{…}"`
abbrev pub join_key : Name → Name → Name
join_key name rest = name ++ (58 ∷ rest)

abbrev pub target_text : (ℕ → Name) → Target → Name
target_text show (by_name n) = n
target_text show (by_id i) = show i

module _ {F : Type 0} (lower : Name → Name) (show : ℕ → Name) where
  unfoldable pub target_key : Name → ParameterRegistry F → Option Target → Name
  target_key name r none = name
  target_key name r (some t) = elim (resolve lower r t) [
    | ok spec ↦ join_key name (show spec.parameter_id)
    | err e ↦ join_key name (target_text show t)
    | stuck ↦ join_key name (target_text show t)
  ]

  unfoldable pub cache_key : {Q W P A : Type 0} → Command F Q W P A → ParameterRegistry F → Q → Name
  cache_key command r q = target_key command.name r (command.target q)

unfoldable pub variant_for :
    {F Q W P A : Type 0} → ProtocolKind → Command F Q W P A → Option (Variant F Q W P A)
variant_for stdbus_kind command = command.stdbus
variant_for modbus_kind command = command.modbus
variant_for auto_kind command = none

module _ {F C : Type 0} where
  -- The handlers around the client's `execute`.
  unfoldable pub failed_io : Name → Error → Session F C → Session F C
  failed_io key e s =
      if absence e
      then record_error e (set_availability key unsupported s)
      else if is_a e protocol_error
      then record_error e s
      else if is_a e watlow_error
      then record_error e s
      else s

  -- The handlers around `decode`.
  unfoldable pub failed_decode : Name → Error → Session F C → Session F C
  failed_decode key e s =
      if absence e
      then record_error e (set_availability key unsupported s)
      else if is_a e protocol_error
      then record_error e s
      else s

  unfoldable pub finish : {A : Type 0} → Name → Result A → Session F C → Result A × Session F C
  finish key (ok a) s = (ok a, set_availability key supported s)
  finish key (err e) s = (err e, failed_decode key e s)
  finish key stuck s = (stuck, s)

module _ {F C W P Q A : Type 0} where
  -- From the client's reply on.
  unfoldable pub receive :
      Name → Variant F Q W P A → Q → Result P → Session F C → Result A × Session F C
  receive key variant q (ok reply) s = finish key (variant.decode reply s.registry q) s
  receive key variant q (err e) s = (err e, failed_io key e s)
  receive key variant q stuck s = (stuck, s)

  -- From the encoded request on.
  unfoldable pub send :
      ProtocolClient C W P
      → Name
      → Variant F Q W P A
      → Q
      → Result W
      → Session F C
      → Result A × Session F C
  send client key variant q (ok wire) s =
      let (r, c) = client.execute wire s.address s.client in
      receive key variant q r (record s { client = c })
  send client key variant q (err e) s = (err e, s)
  send client key variant q stuck s = (stuck, s)

module _ {F C W P Q A : Type 0} (lower : Name → Name) (show : ℕ → Name) where
  unfoldable pub dispatch :
      ProtocolClient C W P
      → Command F Q W P A
      → Option (Variant F Q W P A)
      → Q
      → Bool
      → Session F C
      → Result A × Session F C
  dispatch client command none q confirm s = (err protocol_unsupported_error, s)
  dispatch client command (some variant) q confirm s =
      let key = cache_key lower show command s.registry q in
      if is_unsupported (availability s key)
      then (err protocol_unsupported_error, s)
      else if is_persistent command.safety && not confirm
      then (err confirmation_required_error, s)
      else send client key variant q (variant.encode s.registry q) s

  -- `Session.execute`
  unfoldable pub execute :
      ProtocolClient C W P → Command F Q W P A → Q → Bool → Session F C → Result A × Session F C
  execute client command q confirm s =
      dispatch client command (variant_for client.kind command) q confirm s
