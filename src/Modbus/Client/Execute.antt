-- ===== src/Modbus/Client/Execute.antt =====
-- `ModbusProtocolClient.execute`: its guards, the exceptions that leave it, and its assertions.
use watlowlib.Base.{
  ◌≤◌, ◌≡◌, subst, ◌≢◌, ◌⊎◌, inl, inr, refl, arith, List, Bool, true, false, ◌||◌, Option, none,
  some, get_or, Bool-cases,
}
use watlowlib.Base.Int.{ℤ, pos, negsuc, ltb_ℤ}
use watlowlib.Errors.{watlow_error, configuration_error, connection_error, value_error, is_a}
use watlowlib.Result.{ok, err, >>=-eq-ok}
use watlowlib.Modbus.Ops.{
  ModbusOp, ModbusFn, read_holding, read_input, write_register, write_registers, construct,
  post_init, is_read,
}
use watlowlib.Modbus.Ops.Transactions.{PassesChecks, rejected}
use watlowlib.Modbus.Remap.{ModbusClass, remap_modbus_exception, remap_unsupported}
use watlowlib.Modbus.Client.{
  Outcome, returned, timed_out, watlow, foreign, Slave, ModbusClient, no_words, dispatch, settle,
  settle_provider, perform, execute, IsTyped, RaisesTyped, IsTypedProvider,
}

-- An operation that could be constructed is the one that was asked for.
construct_eq :
    (fn : ModbusFn) (a n : ℤ) (v : Option (List ℤ)) (op : ModbusOp)
    → construct fn a n v ≡ ok op
    → op ≡ record { fn = fn; address = a; count = n; values = v }
unfolding construct
construct_eq fn a n v op e =
    let (u, _, same) =
      >>=-eq-ok (post_init fn a n v)
        (λ _. ok (record { fn = fn; address = a; count = n; values = v })) e in
    cc

needs_values : (fn : ModbusFn) (a n : ℤ) → is_read fn ≡ false → PassesChecks fn a n none → ⊥
needs_values fn (pos a) (pos n) e h = cc (h.2)
needs_values fn (pos a) (negsuc n) e h = h
needs_values fn (negsuc a) n e h = h

-- The assertions of `_dispatch` never fail on an operation that could be constructed: the dispatch is the
-- same whatever exception a failed assertion would raise.
dispatch-construct :
    {E S : Type 0} (slave : Slave E S) (x y : E) (fn : ModbusFn) (a n : ℤ) (v : Option (List ℤ))
    (op : ModbusOp) (s : S)
    → construct fn a n v ≡ ok op
    → dispatch slave x op s ≡ dispatch slave y op s
unfolding dispatch
dispatch-construct slave x y fn a n v op s e =
    rw (construct_eq fn a n v op e) (go fn v (λ none_not. cc))
  where
    go :
        (fn : ModbusFn) (v : Option (List ℤ))
        → construct fn a n v ≢ err value_error
        → dispatch slave x (record { fn = fn; address = a; count = n; values = v }) s
          ≡ dispatch slave y (record { fn = fn; address = a; count = n; values = v }) s
    go read_holding v h = refl
    go read_input v h = refl
    go write_register (some ws) h = refl
    go write_registers (some ws) h = refl
    go write_register none h =
        absurd (h (rejected write_register a n none (needs_values write_register a n refl)))
    go write_registers none h =
        absurd (h (rejected write_registers a n none (needs_values write_registers a n refl)))

module _ {E : Type 0} (isinstance : E → ModbusClass → Bool) where
  remap_typed : (x : E) → is_a (remap_modbus_exception isinstance x) watlow_error ≡ true
  remap_typed x = (remap_unsupported isinstance x).0

  settle_typed : {A : Type 0} (o : Outcome E A) → IsTyped o → RaisesTyped (settle isinstance o)
  unfolding settle
  settle_typed (returned a) h = tt
  settle_typed timed_out h = refl
  settle_typed (watlow e) h = h
  settle_typed (foreign x) h = remap_typed x

-- 1..247
abbrev pub IsAddress : ℤ → Type 0
IsAddress (pos n) = (1 ≤ n) × (n ≤ 247)
IsAddress (negsuc n) = ⊥

module _ {E S : Type 0} where
  no_words-IsTyped : (o : Outcome E (Unit {0})) (s : S) → IsTyped o → IsTyped ((no_words (o, s)).0)
  unfolding no_words
  no_words-IsTyped (returned u) s h = tt
  no_words-IsTyped timed_out s h = tt
  no_words-IsTyped (watlow e) s h = h
  no_words-IsTyped (foreign x) s h = tt

module _ {E S : Type 0} (isinstance : E → ModbusClass → Bool) where
  module _ (provider : ℤ → Outcome E (Slave E S)) (assertion time_limit : E) where
    dispatch-IsTyped :
        (a : ℤ) (slave : Slave E S) (op : ModbusOp) (s : S)
        → IsTypedProvider provider
        → provider a ≡ returned slave
        → IsTyped ((dispatch slave assertion op s).0)
    unfolding dispatch
    dispatch-IsTyped a slave op s h e = go op.fn op.values
      where
        go :
            (fn : ModbusFn) (v : Option (List ℤ))
            → IsTyped (
                (dispatch slave assertion
                  (record { fn = fn; address = op.address; count = op.count; values = v })
                  s).0)
        go read_holding v = (h.reads a slave e op.address op.count s).0
        go read_input v = (h.reads a slave e op.address op.count s).1
        go write_register none = tt
        go write_registers none = tt
        go write_register (some ws) =
            no_words-IsTyped (slave.write_one op.address (get_or ws 0 (pos 0)) s).0
              (slave.write_one op.address (get_or ws 0 (pos 0)) s).1
              (h.writes a slave e op.address (get_or ws 0 (pos 0)) ws s).0
        go write_registers (some ws) =
            no_words-IsTyped (slave.write_many op.address ws s).0
              (slave.write_many op.address ws s).1 (h.writes a slave e op.address (pos 0) ws s).1

    perform_typed :
        (a : ℤ) (op : ModbusOp) (c : ModbusClient S)
        → IsTypedProvider provider
        → (o : Outcome E (Slave E S)) → provider a ≡ o
        → RaisesTyped
            ((perform isinstance assertion op (settle_provider isinstance time_limit o) c).0)
    unfolding perform settle_provider
    perform_typed a op c h (returned slave) e =
        settle_typed isinstance (dispatch slave assertion op c.bus).0
          (dispatch-IsTyped a slave op c.bus h e)
    perform_typed a op c h timed_out e = remap_typed isinstance time_limit
    perform_typed a op c h (watlow x) e = subst IsTyped e (h.provides a)
    perform_typed a op c h (foreign x) e = remap_typed isinstance x

    -- With a provider and slaves that raise, of `WatlowError`s, only these, whatever other exceptions
    -- they raise: `execute` returns or raises a `WatlowError`. No exception of `anymodbus`, and no
    -- `TimeoutError`, leaves it.
    pub execute_typed :
        (op : ModbusOp) (address : ℤ) (c : ModbusClient S)
        → IsTypedProvider provider
        → RaisesTyped ((execute isinstance provider assertion time_limit op address c).0)
    unfolding execute
    execute_typed op address c h =
        elim (Bool-cases (ltb_ℤ address (pos 1) || ltb_ℤ (pos 247) address)) [
          | inl out ↦ rw out refl
          | inr inside ↦ elim (Bool-cases c.disposed) [
            | inl gone ↦ rw (inside, gone) refl
            | inr live ↦
                rw (inside, live)
                  (perform_typed address op (record c { disposed = false }) h (provider address)
                    refl)
          ]
        ]

    -- An address outside 1..247 raises `WatlowConfigurationError` and, with an address in range, a
    -- disposed client raises `WatlowConnectionError`: in both cases the bus is as before, whatever the
    -- provider and the operation are. There is no third guard.
    pub execute_guards :
        (op : ModbusOp) (address : ℤ) (c : ModbusClient S)
        → ((¬ IsAddress address)
            × (execute isinstance provider assertion time_limit op address c
                ≡ (err configuration_error, c)))
          ⊎ (IsAddress address
              × (c.disposed ≡ true)
              × (execute isinstance provider assertion time_limit op address c
                  ≡ (err connection_error, c)))
          ⊎ (IsAddress address
              × (c.disposed ≡ false)
              × (execute isinstance provider assertion time_limit op address c
                  ≡ perform isinstance assertion op
                      (settle_provider isinstance time_limit (provider address))
                      c))
    unfolding execute
    execute_guards op (negsuc n) c = inl ((λ h. h), ground arith)
    execute_guards op (pos n) c = ground arith
