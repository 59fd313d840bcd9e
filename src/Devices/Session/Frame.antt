-- ===== src/Devices/Session/Frame.antt =====
-- `Session.execute`: what it leaves alone, and what blocks it.
use watlowlib.Base.{
  ◌≡◌, ◌≢◌, ◌⊎◌, inl, inr, refl, sym, ap, ◌∙◌, Bool, true, false, ◌&&◌, not, List, ◌∷◌, Option,
  none, some, bytes_eq, bytes_eq_refl, bytes_eq→eq, Bool-cases, ℕ,
}
use watlowlib.Errors.{
  Error, watlow_error, protocol_error, protocol_unsupported_error, confirmation_required_error,
  is_a,
}
use watlowlib.Result.{Result, ok, err, stuck}
use watlowlib.Registry.Spec.{Name, SafetyTier, persistent, read_only, stateful}
use watlowlib.Registry.Index.{get_name}
use watlowlib.Commands.Command.{Command, Variant}
use watlowlib.Devices.Session.{
  Availability, unknown, supported, unsupported, ProtocolClient, Session, availability, lookup,
  set_availability, record_error, absence, is_unsupported, is_persistent, cache_key, variant_for,
  failed_io, failed_decode, finish, receive, send, dispatch, execute,
}

lookup_other :
    (key k : Name) (a : Availability) (cache : List (Name × Availability))
    → k ≢ key
    → lookup k ((key, a) ∷ cache) ≡ lookup k cache
unfolding lookup get_name
lookup_other key k a cache ne = elim (Bool-cases (bytes_eq key k)) [
  | inl hit ↦ absurd (ne (sym (bytes_eq→eq key k hit)))
  | inr miss ↦ rw (lookup, miss) refl
]

pub lookup_same :
    (key : Name) (a : Availability) (cache : List (Name × Availability))
    → lookup key ((key, a) ∷ cache) ≡ a
unfolding lookup get_name
lookup_same key a cache = rw (lookup, bytes_eq_refl key) refl

unsupported_eq : (a : Availability) → is_unsupported a ≡ true → a ≡ unsupported
unsupported_eq unknown h = absurd cc
unsupported_eq supported h = absurd cc
unsupported_eq unsupported h = refl

gate :
    (tier : SafetyTier) (confirm : Bool)
    → ((tier ≡ persistent) × (confirm ≡ false)) ⊎ ((tier ≢ persistent) ⊎ (confirm ≡ true))
gate persistent false = inl (refl, refl)
gate persistent true = inr (inr refl)
gate read_only c = inr (inl (λ e. cc e))
gate stateful c = inr (inl (λ e. cc e))

-- From one state to the next only the entry of `key` in the cache, the client and the last error change.
pub record Keeps {F C : Type 0} (key : Name) (s s' : Session F C) : Type 0 where
  pub registry_kept : s'.registry ≡ s.registry
  pub address_kept : s'.address ≡ s.address
  pub others_kept : (k : Name) → k ≢ key → availability s' k ≡ availability s k

module _ {F C : Type 0} where
  Keeps-all :
      (key : Name) (s s' : Session F C)
      → s'.registry ≡ s.registry
      → s'.address ≡ s.address
      → s'.cache ≡ s.cache
      → Keeps key s s'
  unfolding availability
  Keeps-all key s s' r a c = record {
    registry_kept = r;
    address_kept = a;
    others_kept = λ k ne. ap (lookup k) c;
  }

  set_availability-Keeps :
      (key : Name) (a : Availability) (s s' : Session F C)
      → s'.registry ≡ s.registry
      → s'.address ≡ s.address
      → s'.cache ≡ (key, a) ∷ s.cache
      → Keeps key s s'
  unfolding availability
  set_availability-Keeps key a s s' r ad c = record {
    registry_kept = r;
    address_kept = ad;
    others_kept = λ k ne. ap (lookup k) c ∙ lookup_other key k a s.cache ne;
  }

  failed_io-Keeps : (key : Name) (e : Error) (s : Session F C) → Keeps key s (failed_io key e s)
  unfolding failed_io set_availability record_error
  failed_io-Keeps key e s = elim (Bool-cases (absence e)) [
    | inl gone ↦ rw gone (set_availability-Keeps key unsupported s _ refl refl refl)
    | inr other ↦ rw other (elim (Bool-cases (is_a e protocol_error)) [
      | inl p ↦ rw p (Keeps-all key s _ refl refl refl)
      | inr q ↦ rw q (elim (Bool-cases (is_a e watlow_error)) [
        | inl w ↦ rw w (Keeps-all key s _ refl refl refl)
        | inr v ↦ rw v (Keeps-all key s s refl refl refl)
      ])
    ])
  ]

  failed_decode-Keeps :
      (key : Name) (e : Error) (s : Session F C) → Keeps key s (failed_decode key e s)
  unfolding failed_decode set_availability record_error
  failed_decode-Keeps key e s = elim (Bool-cases (absence e)) [
    | inl gone ↦ rw gone (set_availability-Keeps key unsupported s _ refl refl refl)
    | inr other ↦ rw other (elim (Bool-cases (is_a e protocol_error)) [
      | inl p ↦ rw p (Keeps-all key s _ refl refl refl)
      | inr q ↦ rw q (Keeps-all key s s refl refl refl)
    ])
  ]

  finish-Keeps :
      {A : Type 0} (key : Name) (r : Result A) (s : Session F C) → Keeps key s ((finish key r s).1)
  unfolding finish set_availability
  finish-Keeps key (ok a) s = set_availability-Keeps key supported s _ refl refl refl
  finish-Keeps key (err e) s = failed_decode-Keeps key e s
  finish-Keeps key stuck s = Keeps-all key s s refl refl refl

module _ {F C W P Q A : Type 0} (client : ProtocolClient C W P) (variant : Variant F Q W P A)
    (q : Q) where
  receive-Keeps :
      (key : Name) (r : Result P) (s : Session F C) → Keeps key s ((receive key variant q r s).1)
  unfolding receive
  receive-Keeps key (ok reply) s = finish-Keeps key (variant.decode reply s.registry q) s
  receive-Keeps key (err e) s = failed_io-Keeps key e s
  receive-Keeps key stuck s = Keeps-all key s s refl refl refl

  send-Keeps :
      (key : Name) (r : Result W) (s : Session F C)
      → Keeps key s ((send client key variant q r s).1)
  unfolding send availability
  send-Keeps key (ok wire) s =
      let k =
        receive-Keeps key ((client.execute wire s.address s.client).0)
          (record s { client = (client.execute wire s.address s.client).1 }) in
      record {
        registry_kept = k.registry_kept;
        address_kept = k.address_kept;
        others_kept = k.others_kept;
      }
  send-Keeps key (err e) s = Keeps-all key s s refl refl refl
  send-Keeps key stuck s = Keeps-all key s s refl refl refl

module _ {F C W P Q A : Type 0} (lower : Name → Name) (show : ℕ → Name)
    (client : ProtocolClient C W P) (command : Command F Q W P A) (q : Q) where
  dispatch-Keeps :
      (v : Option (Variant F Q W P A)) (confirm : Bool) (s : Session F C)
      → Keeps
          (cache_key lower show command s.registry q)
          s
          ((dispatch lower show client command v q confirm s).1)
  unfolding dispatch
  dispatch-Keeps none confirm s =
      Keeps-all (cache_key lower show command s.registry q) s s refl refl refl
  dispatch-Keeps (some variant) confirm s =
      let key = cache_key lower show command s.registry q in
      elim (Bool-cases (is_unsupported (availability s key))) [
        | inl blocked ↦ rw blocked (Keeps-all key s s refl refl refl)
        | inr open_ ↦ rw open_ (elim (Bool-cases (is_persistent command.safety && not confirm)) [
          | inl unsure ↦ rw unsure (Keeps-all key s s refl refl refl)
          | inr sure ↦ rw sure (send-Keeps client variant q key (variant.encode s.registry q) s)
        ])
      ]

  pub execute_frame :
      (confirm : Bool) (s : Session F C)
      → Keeps
          (cache_key lower show command s.registry q)
          s
          ((execute lower show client command q confirm s).1)
  unfolding execute
  execute_frame confirm s = dispatch-Keeps (variant_for client.kind command) confirm s

  -- Whatever a command does, it leaves the registry, the address and the availability of every key but
  -- its own as they are.
  pub execute_keeps :
      (confirm : Bool) (s : Session F C) (k : Name)
      → k ≢ cache_key lower show command s.registry q
      → (availability ((execute lower show client command q confirm s).1) k ≡ availability s k)
        × (((execute lower show client command q confirm s).1).registry ≡ s.registry)
        × (((execute lower show client command q confirm s).1).address ≡ s.address)
  execute_keeps confirm s k ne =
      let kept = execute_frame confirm s in
      (kept.others_kept k ne, kept.registry_kept, kept.address_kept)

  -- For a command with a variant for the protocol of the client: a key that is unsupported and, after
  -- that, a persistent command that is not confirmed raise before any input or output, with the session
  -- and its client as before; in any other case neither gate is shut.
  pub execute_blocked :
      (variant : Variant F Q W P A) (confirm : Bool) (s : Session F C)
      → variant_for client.kind command ≡ some variant
      → ((availability s (cache_key lower show command s.registry q) ≡ unsupported)
          × (execute lower show client command q confirm s ≡ (err protocol_unsupported_error, s)))
        ⊎ ((availability s (cache_key lower show command s.registry q) ≢ unsupported)
            × (command.safety ≡ persistent)
            × (confirm ≡ false)
            × (execute lower show client command q confirm s
                ≡ (err confirmation_required_error, s)))
        ⊎ ((availability s (cache_key lower show command s.registry q) ≢ unsupported)
            × ((command.safety ≢ persistent) ⊎ (confirm ≡ true)))
  unfolding execute dispatch
  execute_blocked variant confirm s v =
      let key = cache_key lower show command s.registry q in
      elim (Bool-cases (is_unsupported (availability s key))) [
        | inl b ↦ inl (unsupported_eq (availability s key) b, rw (v, b) refl)
        | inr b ↦
            let open_ : availability s key ≢ unsupported = λ e. cc (b, ap is_unsupported e) in
            elim (gate command.safety confirm) [
              | inl g ↦ inr (inl (open_, g.0, g.1, rw (v, b, g.0, g.1) refl))
              | inr g ↦ inr (inr (open_, g))
            ]
      ]
