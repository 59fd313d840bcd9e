-- ===== src/Tests/Modbus.antt =====
-- The Modbus client and its operations on a bus that counts its transactions.
use watlowlib.Base.{
  ℕ, suc, ◌≡◌, ◌⊎◌, inl, inr, refl, List, [], ◌∷◌, Bool, true, false, none, some, if◌then◌else◌,
  subst, Bool-cases,
}
use watlowlib.Base.Int.{ℤ, pos, negsuc, ltb_ℤ}
use watlowlib.Errors.{value_error, connection_error}
use watlowlib.Result.{Result, ok, err}
use watlowlib.StdBus.Value.{Value, int, float}
use watlowlib.Modbus.Codec.{RegisterType, float32, int32, uint32, uint16, int16, string, Registers}
use watlowlib.Modbus.Ops.Transactions.{
  Transaction, PastEnd, WideValues, PassesChecks, construct-Transaction,
}
use watlowlib.Modbus.Ops.{ModbusOp, read_holding, write_register, construct}
use watlowlib.Modbus.Remap.{ModbusClass, illegal_data_address}
use watlowlib.Modbus.Client.{
  Outcome, returned, timed_out, watlow, foreign, Slave, ModbusClient, execute, RaisesTyped, IsTyped,
  IsTypedProvider,
}
use watlowlib.Modbus.Client.Execute.{execute_typed}

-- Two exceptions: that of a missing register, and any other.
abbrev is_missing : Bool → ModbusClass → Bool
is_missing true illegal_data_address = true
is_missing e c = false

-- The registers up to 360 hold 75; the others are missing, and writes run into the time limit.
abbrev read_one : ℤ → ℤ → ℕ → Outcome Bool (List ℤ) × ℕ
read_one r n s =
    if ltb_ℤ (pos 360) r then (foreign true, suc s) else (returned (pos 75 ∷ []), suc s)

abbrev slave : Slave Bool ℕ
slave = record {
  read_holding_registers = read_one;
  read_input_registers = λ r n s. (foreign false, suc s);
  write_one = λ r w s. (timed_out, suc s);
  write_many = λ r ws s. (watlow connection_error, suc s);
}

abbrev provider : ℤ → Outcome Bool (Slave Bool ℕ)
provider a = returned slave

abbrev Reads : Outcome Bool (Slave Bool ℕ) → ℤ → ℤ → ℕ → Type 0
Reads (returned sl) r n s =
    IsTyped ((sl.read_holding_registers r n s).0) × IsTyped ((sl.read_input_registers r n s).0)
Reads o r n s = Unit {0}

abbrev Writes : Outcome Bool (Slave Bool ℕ) → ℤ → ℤ → List ℤ → ℕ → Type 0
Writes (returned sl) r w ws s =
    IsTyped ((sl.write_one r w s).0) × IsTyped ((sl.write_many r ws s).0)
Writes o r w ws s = Unit {0}

-- Each call of the slave raises only what is allowed.
slave_reads : (r n : ℤ) (s : ℕ) → IsTyped ((read_one r n s).0)
slave_reads r n s = elim (Bool-cases (ltb_ℤ (pos 360) r)) [ inl e ↦ rw e tt | inr e ↦ rw e tt ]

provider-IsTypedProvider : IsTypedProvider provider
provider-IsTypedProvider = record {
  provides = λ a. tt;
  reads = λ a sl e r n s.
      subst (λ (o : Outcome Bool (Slave Bool ℕ)). Reads o r n s) e (slave_reads r n s, tt);
  writes = λ a sl e r w ws s.
      subst (λ (o : Outcome Bool (Slave Bool ℕ)). Writes o r w ws s) e (tt, refl);
}

abbrev read_op : ModbusOp
read_op = record { fn = read_holding; address = pos 361; count = pos 1; values = none }

abbrev client : ModbusClient ℕ
client = record { bus = 0; disposed = false }

-- A read of 125 registers from 0xffff on.
construct-Transaction_example :
    (Transaction read_holding (pos 0xffff) (pos 125) none
      × (construct read_holding (pos 0xffff) (pos 125) none
          ≡ ok
              (record { fn = read_holding; address = pos 0xffff; count = pos 125; values = none })))
    ⊎ ((PastEnd (pos 0xffff) (pos 125) ⊎ WideValues none)
        × (¬ Transaction read_holding (pos 0xffff) (pos 125) none)
        × PassesChecks read_holding (pos 0xffff) (pos 125) none
        × (construct read_holding (pos 0xffff) (pos 125) none
            ≡ ok (record {
              fn = read_holding;
              address = pos 0xffff;
              count = pos 125;
              values = none;
            })))
    ⊎ ((¬ Transaction read_holding (pos 0xffff) (pos 125) none)
        × (¬ PassesChecks read_holding (pos 0xffff) (pos 125) none)
        × (construct read_holding (pos 0xffff) (pos 125) none ≡ err value_error))
construct-Transaction_example = construct-Transaction read_holding (pos 0xffff) (pos 125) none

constructed :
    construct write_register (pos 100) (pos 1) (some (pos 7 ∷ []))
    ≡ ok (record {
      fn = write_register;
      address = pos 100;
      count = pos 1;
      values = some (pos 7 ∷ []);
    })
unfolding construct
constructed = refl

execute_typed_example :
    RaisesTyped ((execute is_missing provider false false read_op (pos 1) client).0)
execute_typed_example =
    execute_typed is_missing provider false false read_op (pos 1) client provider-IsTypedProvider

-- Registers that hold a number of 32 bits in the first of two words, and floats that are whole.
abbrev read_words : RegisterType → List ℤ → Result (Value ℕ)
read_words float32 (pos n ∷ ws) = ok (float n)
read_words float32 (negsuc n ∷ ws) = err value_error
read_words string ws = err value_error
read_words t (z ∷ ws) = ok (int z)
read_words t [] = err value_error

abbrev written_words : RegisterType → Value ℕ → Result (List ℤ)
written_words float32 (float n) = ok (pos n ∷ pos 0 ∷ [])
written_words int32 (int z) = ok (z ∷ pos 0 ∷ [])
written_words uint32 (int z) = ok (z ∷ pos 0 ∷ [])
written_words uint16 (int z) = ok (z ∷ [])
written_words int16 (int z) = ok (z ∷ [])
written_words _ _ = err value_error

abbrev registers : Registers ℕ Bool Bool
registers = record {
  decode = λ t wo bo ws. read_words t ws;
  encode = λ t n wo bo v. written_words t v;
}
