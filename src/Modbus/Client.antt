-- ===== src/Modbus/Client.antt =====
-- src/watlowlib/protocol/modbus/client.py: `ModbusProtocolClient`. The slave that the provider returns,
-- a class of `anymodbus`, is a parameter: a record of its four calls.
use watlowlib.Base.{
  ℕ, ◌≡◌, refl, ap, arith, List, [], ◌∷◌, Bool, true, false, ◌||◌, Option, none, some,
  if◌then◌else◌, get_or,
}
use watlowlib.Base.Int.{ℤ, pos, ltb_ℤ}
use watlowlib.Errors.{
  Error, watlow_error, configuration_error, connection_error, watlow_timeout_error, is_a,
}
use watlowlib.Result.{Result, ok, err, stuck}
use watlowlib.Modbus.Ops.{
  ModbusOp, ModbusFn, read_holding, read_input, write_register, write_registers, construct, is_read,
}
use watlowlib.Modbus.Remap.{ModbusClass, remap_modbus_exception}
pub mod Execute

-- What a call into `anymodbus` does: it returns, runs into the time limit of `anyio.fail_after`,
-- raises a `WatlowError`, or raises any other exception.
pub data Outcome (E A : Type 0) : Type 0 where
  returned : A → Outcome E A
  timed_out : Outcome E A
  watlow : Error → Outcome E A
  foreign : E → Outcome E A

-- `SlaveLike`, on a bus with state `S`.
pub record Slave (E S : Type 0) : Type 0 where
  pub read_holding_registers : ℤ → ℤ → S → Outcome E (List ℤ) × S
  pub read_input_registers : ℤ → ℤ → S → Outcome E (List ℤ) × S
  pub write_one : ℤ → ℤ → S → Outcome E (Unit {0}) × S
  pub write_many : ℤ → List ℤ → S → Outcome E (Unit {0}) × S

pub record ModbusClient (S : Type 0) : Type 0 where
  pub bus : S
  pub disposed : Bool

unfoldable pub dispose : {S : Type 0} → ModbusClient S → ModbusClient S
dispose c = record c { disposed = true }

module _ {E S : Type 0} where
  -- A write that succeeds returns `()`.
  unfoldable pub no_words : Outcome E (Unit {0}) × S → Outcome E (List ℤ) × S
  no_words (returned u, s) = (returned [], s)
  no_words (timed_out, s) = (timed_out, s)
  no_words (watlow e, s) = (watlow e, s)
  no_words (foreign e, s) = (foreign e, s)

  -- `_dispatch`. The `assert`s hold for an operation that `__post_init__` accepted; without values the
  -- model takes the operation as failing with the exception `assertion`.
  unfoldable pub dispatch : Slave E S → E → ModbusOp → S → Outcome E (List ℤ) × S
  unfolding no_words
  dispatch slave assertion op s = elim op.fn [
    | read_holding ↦ slave.read_holding_registers op.address op.count s
    | read_input ↦ slave.read_input_registers op.address op.count s
    | write_register ↦ elim op.values [
      | none ↦ (foreign assertion, s)
      | some ws ↦ no_words (slave.write_one op.address (get_or ws 0 (pos 0)) s)
    ]
    | write_registers ↦ elim op.values [
      | none ↦ (foreign assertion, s)
      | some ws ↦ no_words (slave.write_many op.address ws s)
    ]
  ]

module _ {E : Type 0} (isinstance : E → ModbusClass → Bool) where
  -- The handlers around `_dispatch`.
  unfoldable pub settle : {A : Type 0} → Outcome E A → Result A
  settle (returned a) = ok a
  settle timed_out = err watlow_timeout_error
  settle (watlow e) = err e
  settle (foreign x) = err (remap_modbus_exception isinstance x)

  -- The handlers around the slave provider, which has no time limit: there `TimeoutError` is an
  -- exception like any other, and `time_limit` is that exception.
  unfoldable pub settle_provider : {A : Type 0} → E → Outcome E A → Result A
  settle_provider time_limit (returned a) = ok a
  settle_provider time_limit timed_out = err (remap_modbus_exception isinstance time_limit)
  settle_provider time_limit (watlow e) = err e
  settle_provider time_limit (foreign x) = err (remap_modbus_exception isinstance x)

  -- `execute` from the slave, or the exception of the provider, on.
  unfoldable pub perform :
      {S : Type 0}
      → E
      → ModbusOp
      → Result (Slave E S)
      → ModbusClient S
      → Result (List ℤ) × ModbusClient S
  unfolding settle dispatch
  perform assertion op (err e) c = (err e, c)
  perform assertion op stuck c = (stuck, c)
  perform assertion op (ok slave) c =
      let (r, s) = dispatch slave assertion op c.bus in (settle r, record c { bus = s })

  module _ {S : Type 0} (provider : ℤ → Outcome E (Slave E S)) (assertion time_limit : E) where
    unfoldable pub execute : ModbusOp → ℤ → ModbusClient S → Result (List ℤ) × ModbusClient S
    unfolding settle_provider perform
    execute op address c =
        if ltb_ℤ address (pos 1) || ltb_ℤ (pos 247) address
        then (err configuration_error, c)
        else if c.disposed
        then (err connection_error, c)
        else perform assertion op (settle_provider time_limit (provider address)) c

-- A call raises through `watlow` only classes of the hierarchy of `WatlowError`.
abbrev pub IsTyped : {E A : Type 0} → Outcome E A → Type 0
IsTyped (returned a) = Unit {0}
IsTyped timed_out = Unit {0}
IsTyped (watlow e) = is_a e watlow_error ≡ true
IsTyped (foreign x) = Unit {0}

-- The call returns, or raises a `WatlowError`.
abbrev pub RaisesTyped : {A : Type 0} → Result A → Type 0
RaisesTyped (ok a) = Unit {0}
RaisesTyped (err e) = is_a e watlow_error ≡ true
RaisesTyped stuck = ⊥

-- The provider and the slaves that it returns raise, of the classes of the hierarchy of `WatlowError`,
-- no others.
pub record IsTypedProvider {E S : Type 0} (provider : ℤ → Outcome E (Slave E S)) : Type 0 where
  pub provides : (a : ℤ) → IsTyped (provider a)
  pub reads :
      (a : ℤ) (slave : Slave E S)
      → provider a ≡ returned slave
      → (r n : ℤ) (s : S)
      → IsTyped ((slave.read_holding_registers r n s).0)
        × IsTyped ((slave.read_input_registers r n s).0)
  pub writes :
      (a : ℤ) (slave : Slave E S)
      → provider a ≡ returned slave
      → (r w : ℤ) (ws : List ℤ) (s : S)
      → IsTyped ((slave.write_one r w s).0) × IsTyped ((slave.write_many r ws s).0)
