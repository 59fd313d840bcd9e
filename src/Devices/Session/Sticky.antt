-- ===== src/Devices/Session/Sticky.antt =====
-- The availability of a command over the life of a session.
use watlowlib.Base.{
  ◌≡◌, ◌⊎◌, inl, inr, refl, sym, ap, ◌∙◌, Bool, true, ◌&&◌, not, Option, none, some, bytes_eq,
  bytes_eq_refl, bytes_eq→eq, Bool-cases, ℕ,
}
use watlowlib.Errors.{Error, watlow_error, protocol_error, is_a}
use watlowlib.Result.{Result, ok, err, stuck}
use watlowlib.Registry.Spec.{Name}
use watlowlib.Registry.Index.{ParameterRegistry}
use watlowlib.Commands.Command.{Command, Variant}
use watlowlib.Devices.Session.{
  supported, unsupported, ProtocolClient, Session, availability, set_availability, record_error,
  clear_last_error, bind_registry, absence, is_unsupported, is_persistent, cache_key, variant_for,
  failed_io, failed_decode, finish, receive, send, dispatch, execute,
}
use watlowlib.Devices.Session.Frame.{lookup_same, execute_frame}

-- How the availability of a key stands after a call, against before: it is SUPPORTED where the call
-- returned; where it raised, it is as before, or it is UNSUPPORTED and the exception is one of the three
-- of absence.
abbrev pub Transition : {F C A : Type 0} → Name → Session F C → Result A × Session F C → Type 0
Transition key s (ok a, s') = availability s' key ≡ supported
Transition key s (err e, s') =
    (availability s' key ≡ availability s key)
    ⊎ ((availability s' key ≡ unsupported) × (absence e ≡ true))
Transition key s (stuck, s') = availability s' key ≡ availability s key

module _ {F C : Type 0} where
  failed_io_moves :
      (A : Type 0) (key : Name) (e : Error) (s : Session F C)
      → Transition {A = A} key s (err e, failed_io key e s)
  unfolding failed_io record_error availability set_availability
  failed_io_moves A key e s = elim (Bool-cases (absence e)) [
    | inl gone ↦ rw gone (inr (lookup_same key unsupported s.cache, refl))
    | inr other ↦ rw other (
        inl (elim (Bool-cases (is_a e protocol_error)) [
          | inl p ↦ rw p refl
          | inr q ↦
              rw q
                (elim (Bool-cases (is_a e watlow_error)) [ inl w ↦ rw w refl | inr w ↦ rw w refl ])
        ]))
  ]

  failed_decode_moves :
      (A : Type 0) (key : Name) (e : Error) (s : Session F C)
      → Transition {A = A} key s (err e, failed_decode key e s)
  unfolding failed_decode record_error availability set_availability
  failed_decode_moves A key e s = elim (Bool-cases (absence e)) [
    | inl gone ↦ rw gone (inr (lookup_same key unsupported s.cache, refl))
    | inr other ↦
        rw other (
          inl (elim (Bool-cases (is_a e protocol_error)) [ inl p ↦ rw p refl | inr q ↦ rw q refl ]))
  ]

  finish_moves :
      {A : Type 0} (key : Name) (r : Result A) (s : Session F C) → Transition key s (finish key r s)
  unfolding finish set_availability availability
  finish_moves key (ok a) s = lookup_same key supported s.cache
  finish_moves {A = A} key (err e) s = failed_decode_moves A key e s
  finish_moves key stuck s = refl

  -- The state before may differ in what the cache does not depend on.
  transport_before :
      {A : Type 0} (key : Name) (s t : Session F C) (x : Result A × Session F C)
      → availability t key ≡ availability s key
      → Transition key t x
      → Transition key s x
  transport_before key s t (ok a, s') e h = h
  transport_before key s t (err x, s') e h = elim h [ inl same ↦ inl (same ∙ e) | inr a ↦ inr a ]
  transport_before key s t (stuck, s') e h = h ∙ e

module _ {F C W P Q A : Type 0} (client : ProtocolClient C W P) (variant : Variant F Q W P A)
    (q : Q) where
  receive_moves :
      (key : Name) (r : Result P) (s : Session F C) → Transition key s (receive key variant q r s)
  unfolding receive
  receive_moves key (ok reply) s = finish_moves key (variant.decode reply s.registry q) s
  receive_moves key (err e) s = failed_io_moves A key e s
  receive_moves key stuck s = refl

  send_moves :
      (key : Name) (r : Result W) (s : Session F C)
      → Transition key s (send client key variant q r s)
  unfolding send availability
  send_moves key (ok wire) s =
      let t = record s { client = (client.execute wire s.address s.client).1 } in
      transport_before key s t
        (receive key variant q ((client.execute wire s.address s.client).0) t) refl
        (receive_moves key ((client.execute wire s.address s.client).0) t)
  send_moves key (err e) s = inl refl
  send_moves key stuck s = refl

module _ {F C W P Q A : Type 0} (lower : Name → Name) (show : ℕ → Name)
    (client : ProtocolClient C W P) (command : Command F Q W P A) (q : Q) where
  dispatch_moves :
      (v : Option (Variant F Q W P A)) (confirm : Bool) (s : Session F C)
      → Transition
          (cache_key lower show command s.registry q)
          s
          (dispatch lower show client command v q confirm s)
  unfolding dispatch
  dispatch_moves none confirm s = inl refl
  dispatch_moves (some variant) confirm s =
      let key = cache_key lower show command s.registry q in
      elim (Bool-cases (is_unsupported (availability s key))) [
        | inl blocked ↦ rw blocked (inl refl)
        | inr open_ ↦ rw open_ (elim (Bool-cases (is_persistent command.safety && not confirm)) [
          | inl unsure ↦ rw unsure (inl refl)
          | inr sure ↦ rw sure (send_moves client variant q key (variant.encode s.registry q) s)
        ])
      ]

  -- Where `execute` returns, the key of the command is SUPPORTED; where it raises, the key is as before,
  -- or it is UNSUPPORTED and the exception is a `WatlowNoSuchObjectError`, a `WatlowNoSuchAttributeError`
  -- or a `WatlowProtocolUnsupportedError`.
  pub execute-Transition :
      (confirm : Bool) (s : Session F C)
      → Transition
          (cache_key lower show command s.registry q)
          s
          (execute lower show client command q confirm s)
  unfolding execute
  execute-Transition confirm s = dispatch_moves (variant_for client.kind command) confirm s

-- One call on a session: any command with any request, with or without confirmation, or one of the
-- calls that change the session otherwise.
pub data Step {F C : Type 0} (lower : Name → Name) (show : ℕ → Name)
    : Session F C → Session F C → Type 1 where
  execute_step :
      {W P Q A : Type 0} (client : ProtocolClient C W P) (command : Command F Q W P A) (q : Q)
      (confirm : Bool) (s : Session F C)
      → Step lower show s ((execute lower show client command q confirm s).1)
  bind_step : (r : ParameterRegistry F) (s : Session F C) → Step lower show s (bind_registry r s)
  clear_step : (s : Session F C) → Step lower show s (clear_last_error s)

pub data Steps {F C : Type 0} (lower : Name → Name) (show : ℕ → Name)
    : Session F C → Session F C → Type 1 where
  stop : (s : Session F C) → Steps lower show s s
  go_on : {s t u : Session F C} → Step lower show s t → Steps lower show t u → Steps lower show s u

module _ {F C : Type 0} (lower : Name → Name) (show : ℕ → Name) where
  execute_sticky :
      {W P Q A : Type 0} (client : ProtocolClient C W P) (command : Command F Q W P A) (q : Q)
      (confirm : Bool) (s : Session F C) (k : Name)
      → availability s k ≡ unsupported
      → availability ((execute lower show client command q confirm s).1) k ≡ unsupported
  unfolding execute dispatch
  execute_sticky client command q confirm s k u =
      elim (Bool-cases (bytes_eq k (cache_key lower show command s.registry q))) [
        | inl same ↦
            go (variant_for client.kind command)
              (bytes_eq→eq k (cache_key lower show command s.registry q) same)
        | inr apart ↦
            (execute_frame lower show client command q confirm s).others_kept k (λ e. cc (
              apart,
              bytes_eq_refl (cache_key lower show command s.registry q),
              ap (λ x. bytes_eq x (cache_key lower show command s.registry q)) e,
            ))
            ∙ u
      ]
    where
      go :
          (v : Option (Variant F _ _ _ _))
          → k ≡ cache_key lower show command s.registry q
          → availability ((dispatch lower show client command v q confirm s).1) k ≡ unsupported
      go none e = u
      go (some v) e =
          let shut : availability s (cache_key lower show command s.registry q) ≡ unsupported =
            ap (availability s) (sym e) ∙ u in
          rw (ap is_unsupported shut) u

  Step-sticky :
      (k : Name) (s t : Session F C)
      → Step lower show s t
      → availability s k ≡ unsupported
      → availability t k ≡ unsupported
  unfolding bind_registry clear_last_error availability
  Step-sticky k _ _ (execute_step client command q confirm s) u =
      execute_sticky client command q confirm s k u
  Step-sticky k _ _ (bind_step r s) u = u
  Step-sticky k _ _ (clear_step s) u = u

  -- UNSUPPORTED is sticky: a key that is unsupported stays so through every sequence of calls of
  -- `execute`, with any commands, clients, requests and outcomes, of `bind_registry` and of
  -- `clear_last_error`.
  pub unsupported_sticky :
      (k : Name) (s t : Session F C)
      → Steps lower show s t
      → availability s k ≡ unsupported
      → availability t k ≡ unsupported
  unsupported_sticky k _ _ (stop s) u = u
  unsupported_sticky k _ _ (go_on {s = s} {t = m} {u = t} a rest) u =
      unsupported_sticky k m t rest (Step-sticky k s m a u)
