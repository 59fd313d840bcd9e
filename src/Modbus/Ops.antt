-- ===== src/Modbus/Ops.antt =====
-- src/watlowlib/protocol/modbus/ops.py: `ModbusFn` and `ModbusOp` with its `__post_init__`.
pub mod Transactions
use watlowlib.Base.{
  ℕ, ◌≤◌, ◌≡◌, ◌⊎◌, inl, inr, arith, List, Bool, true, false, ◌||◌, not, Option, none, some, length,
  ◌==◌, if◌then◌else◌,
}
use watlowlib.Base.Int.{ℤ, pos, negsuc, ltb_ℤ}
use watlowlib.Errors.{value_error}
use watlowlib.Result.{Result, ok, err, ◌>>◌}

pub data ModbusFn : Type 0 where
  read_holding read_input write_register write_registers : ModbusFn

-- The fields are Python integers; `__post_init__` rejects what is out of range.
pub record ModbusOp : Type 0 where
  pub fn : ModbusFn
  pub address : ℤ
  pub count : ℤ
  pub values : Option (List ℤ)

abbrev pub is_read : ModbusFn → Bool
is_read read_holding = true
is_read read_input = true
is_read write_register = false
is_read write_registers = false

abbrev reject_if : Bool → Result (Unit {0})
reject_if b = if b then err value_error else ok tt

-- `!=` of two integers.
abbrev pub differs : ℤ → ℤ → Bool
differs a b = ltb_ℤ a b || ltb_ℤ b a

-- The limits of the function code on `count`.
unfoldable pub check_count : ModbusFn → ℤ → Result (Unit {0})
check_count read_holding n = reject_if (ltb_ℤ n (pos 1) || ltb_ℤ (pos 125) n)
check_count read_input n = reject_if (ltb_ℤ n (pos 1) || ltb_ℤ (pos 125) n)
check_count write_registers n = reject_if (ltb_ℤ n (pos 1) || ltb_ℤ (pos 123) n)
check_count write_register n = reject_if (differs n (pos 1))

unfoldable pub check_values : ModbusFn → ℤ → Option (List ℤ) → Result (Unit {0})
check_values read_holding n v = elim v [ none ↦ ok tt | some ws ↦ err value_error ]
check_values read_input n v = elim v [ none ↦ ok tt | some ws ↦ err value_error ]
check_values write_register n v = elim v [
  | none ↦ err value_error
  | some ws ↦ reject_if (not (length ws == 1))
]
check_values write_registers n v = elim v [
  | none ↦ err value_error
  | some ws ↦ reject_if (differs (pos (length ws)) n)
]

unfoldable pub post_init : ModbusFn → ℤ → ℤ → Option (List ℤ) → Result (Unit {0})
unfolding check_count check_values
post_init fn address count values =
    reject_if (ltb_ℤ address (pos 0) || ltb_ℤ (pos 0xffff) address)
    >> check_count fn count
    >> check_values fn count values

-- `ModbusOp(…)`
unfoldable pub construct : ModbusFn → ℤ → ℤ → Option (List ℤ) → Result ModbusOp
unfolding post_init
construct fn address count values =
    post_init fn address count values
    >> ok (record { fn = fn; address = address; count = count; values = values })
