-- ===== src/Tests/Devices.antt =====
-- A session over a client that counts its calls.
use watlowlib.Base.{
  ℕ, suc, ◌≡◌, ◌≢◌, ◌⊎◌, refl, ap, ◌∙◌, arith, [], ◌∷◌, true, false, none, some, get_or,
}
use watlowlib.Errors.{protocol_unsupported_error, confirmation_required_error, no_such_object_error}
use watlowlib.Result.{ok, err}
use watlowlib.Registry.Spec.{Name, persistent, read_only}
use watlowlib.Registry.Index.{get_name}
use watlowlib.Commands.Command.{Command, Variant}
use watlowlib.Devices.Session.{
  Session, ProtocolClient, stdbus_kind, unsupported, availability, lookup, cache_key, target_key,
  execute, variant_for,
}
use watlowlib.Devices.Session.Frame.{execute_keeps, execute_blocked}
use watlowlib.Devices.Session.Sticky.{
  Transition, Steps, execute_step, stop, go_on, execute-Transition, unsupported_sticky,
}

abbrev same_case : Name → Name
same_case n = n

abbrev letter : ℕ → Name
letter i = i ∷ []

-- The device knows the request 1 only.
abbrev client : ProtocolClient ℕ ℕ ℕ
client = record {
  kind = stdbus_kind;
  execute = λ wire address n. (elim wire [ suc k ↦ ok 75 | _ ↦ err no_such_object_error ], suc n);
}

abbrev variant : Variant ℕ ℕ ℕ ℕ ℕ
variant = record { encode = λ r q. ok q; decode = λ reply r q. ok reply }

abbrev read_it : Command ℕ ℕ ℕ ℕ ℕ
read_it = record {
  name = 114 ∷ [];
  stdbus = some variant;
  modbus = none;
  safety = read_only;
  target = λ q. none;
}

abbrev write_it : Command ℕ ℕ ℕ ℕ ℕ
write_it = record {
  name = 119 ∷ [];
  stdbus = some variant;
  modbus = none;
  safety = persistent;
  target = λ q. none;
}

abbrev fresh : Session ℕ ℕ
fresh = record {
  client = 0;
  registry = record { specs = []; by_id = []; by_name = [] };
  address = 1;
  cache = [];
  last_error = none;
}

abbrev refused : Session ℕ ℕ
refused = record fresh { cache = (114 ∷ [], unsupported) ∷ [] }

read_key : cache_key same_case letter read_it fresh.registry 1 ≡ 114 ∷ []
unfolding cache_key target_key
read_key = refl

execute_keeps_example :
    (availability ((execute same_case letter client read_it 1 false fresh).1) (119 ∷ [])
      ≡ availability fresh (119 ∷ []))
    × (((execute same_case letter client read_it 1 false fresh).1).registry ≡ fresh.registry)
    × (((execute same_case letter client read_it 1 false fresh).1).address ≡ 1)
execute_keeps_example = execute_keeps same_case letter client read_it 1 false fresh (119 ∷ []) other
  where
    other : 119 ∷ [] ≢ cache_key same_case letter read_it fresh.registry 1
    other = λ e. omega (arith, ap (λ l. get_or l 0 0) (e ∙ read_key))

has_variant : variant_for stdbus_kind write_it ≡ some variant
unfolding variant_for
has_variant = refl

execute_blocked_example :
    ((availability fresh (cache_key same_case letter write_it fresh.registry 1) ≡ unsupported)
      × (execute same_case letter client write_it 1 false fresh
          ≡ (err protocol_unsupported_error, fresh)))
    ⊎ ((availability fresh (cache_key same_case letter write_it fresh.registry 1) ≢ unsupported)
        × (persistent ≡ persistent)
        × (false ≡ false)
        × (execute same_case letter client write_it 1 false fresh
            ≡ (err confirmation_required_error, fresh)))
    ⊎ ((availability fresh (cache_key same_case letter write_it fresh.registry 1) ≢ unsupported)
        × ((persistent ≢ persistent) ⊎ (false ≡ true)))
execute_blocked_example =
    execute_blocked same_case letter client write_it 1 variant false fresh has_variant

execute-Transition_example :
    Transition
      (cache_key same_case letter read_it fresh.registry 1)
      fresh
      (execute same_case letter client read_it 1 false fresh)
execute-Transition_example = execute-Transition same_case letter client read_it 1 false fresh

was_refused : availability refused (114 ∷ []) ≡ unsupported
unfolding availability lookup get_name
was_refused = refl

steps : Steps same_case letter refused ((execute same_case letter client read_it 1 false refused).1)
steps = go_on (execute_step client read_it 1 false refused) (stop _)

unsupported_sticky_example :
    availability ((execute same_case letter client read_it 1 false refused).1) (114 ∷ [])
    ≡ unsupported
unsupported_sticky_example =
    unsupported_sticky same_case letter (114 ∷ []) refused
      ((execute same_case letter client read_it 1 false refused).1) steps was_refused
