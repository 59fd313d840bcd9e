-- ===== src/Modbus/Tables.antt =====
-- src/watlowlib/protocol/modbus/tables.py: how a data type lies in registers. `WordOrder` and `ByteOrder`
-- of `anymodbus` are parameters.
use watlowlib.Base.{ℕ, zero, suc, List, Option, none, some}
use watlowlib.Errors.{protocol_unsupported_error}
use watlowlib.Result.{Result, ok, err, ◌>>=◌}
use watlowlib.StdBus.Value.{
  DataType, type_u8, type_u16, type_u32, type_s32, type_float, type_string, type_packed, type_s16,
}
use watlowlib.Modbus.Ops.{ModbusFn, read_holding}

-- The two enumerations: the members HIGH_LOW and BIG, and the look-up of a label.
pub record Orders (W B : Type 0) : Type 0 where
  pub high_low : W
  pub big : B
  pub word_order_of : List ℕ → Option W

pub record ModbusEncoding (W B : Type 0) : Type 0 where
  pub register_count : ℕ
  pub word_order : W
  pub byte_order : B
  pub read_fn : ModbusFn

-- The register counts of `_DEFAULTS`.
abbrev pub default_count : DataType → ℕ
default_count type_float = 2
default_count type_s32 = 2
default_count type_u32 = 2
default_count type_u16 = 1
default_count type_s16 = 1
default_count type_u8 = 1
default_count type_packed = 1
default_count type_string = 8

module _ {W B : Type 0} (orders : Orders W B) where
  unfoldable pub coerce_word_order : Option (List ℕ) → Result (Option W)
  coerce_word_order none = ok none
  coerce_word_order (some label) = elim (orders.word_order_of label) [
    | none ↦ err protocol_unsupported_error
    | some w ↦ ok (some w)
  ]

  -- `x or default`, where 0 counts as absent.
  unfoldable pub count_or : Option ℕ → ℕ → ℕ
  count_or none d = d
  count_or (some zero) d = d
  count_or (some (suc n)) d = suc n

  unfoldable pub order_or : Option W → W → W
  order_or none d = d
  order_or (some w) d = w

  unfoldable pub encoding_for : DataType → Option (List ℕ) → Option ℕ → Result (ModbusEncoding W B)
  unfolding coerce_word_order count_or order_or
  encoding_for data_type word_order count = coerce_word_order word_order >>= λ w. ok (record {
    register_count = count_or count (default_count data_type);
    word_order = order_or w orders.high_low;
    byte_order = orders.big;
    read_fn = read_holding;
  })
