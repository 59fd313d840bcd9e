-- ===== src/Modbus/Codec/RoundTrip.antt =====
-- Numbers that are encoded into words and read back.
use watlowlib.Base.{ℕ, suc, ◌+◌, ◌*◌, ◌<◌, ◌≡◌, List, [], ◌∷◌, Bool, true, false, none, length}
use watlowlib.Base.Int.{ℤ, pos, negsuc}
use watlowlib.Result.{ok}
use watlowlib.StdBus.Value.{
  Value, int, float, str, raw, Floats, DataType, type_u8, type_u16, type_u32, type_s32, type_float,
  type_string, type_packed, type_s16,
}
use watlowlib.Modbus.Codec.{RegisterType, float32, int32, uint32, uint16, int16, Registers}

-- The 32-bit integer types.
pub data IsLong : RegisterType → Type 0 where
  signed_long : IsLong int32
  unsigned_long : IsLong uint32

-- What anymodbus documents of its codec: the integers of the four types come back from their words, a
-- float comes back rounded to single precision, the 32-bit types take two words and the 16-bit types one,
-- and a word below 2^16 is read as an unsigned 16-bit integer by its value.
pub record RoundTrips {F W B : Type 0} (registers : Registers F W B) (rounded : F → F)
    : Type 0 where
  pub long_back :
      (t : RegisterType) (wo : W) (bo : B) (z : ℤ) (ws : List ℤ)
      → IsLong t
      → registers.encode t none wo bo (int z) ≡ ok ws
      → (length ws ≡ 2) × (registers.decode t wo bo ws ≡ ok (int z))
  pub short_back :
      (wo : W) (bo : B) (z : ℤ) (ws : List ℤ)
      → registers.encode int16 none wo bo (int z) ≡ ok ws
      → (length ws ≡ 1) × (registers.decode int16 wo bo ws ≡ ok (int z))
  pub word_read :
      (wo : W) (bo : B) (n : ℕ)
      → n < 0x10000
      → registers.decode uint16 wo bo (pos n ∷ []) ≡ ok (int (pos n))
  pub float_back :
      (wo : W) (bo : B) (x : F) (ws : List ℤ)
      → registers.encode float32 none wo bo (float x) ≡ ok ws
      → (length ws ≡ 2) × (registers.decode float32 wo bo ws ≡ ok (float (rounded x)))

-- `w` is the remainder of the integer by `m`, with the quotient `q` or, below 0, `-q`.
abbrev pub IsRemainder : ℕ → ℤ → ℕ → ℕ → Type 0
IsRemainder m (pos n) w q = (w < m) × (n ≡ q * m + w)
IsRemainder m (negsuc n) w q = (w < m) × (suc n + w ≡ q * m)

-- The integer of a value is `int(value)`, and the float `float(value)`; texts and bytes have none.
abbrev pub HasInteger : {F : Type 0} → Floats F → Value F → ℤ → Type 0
HasInteger fl (int y) z = y ≡ z
HasInteger fl (float x) z = fl.to_int x ≡ ok z
HasInteger fl (str t) z = ⊥
HasInteger fl (raw b) z = ⊥

abbrev pub HasFloat : {F : Type 0} → Floats F → Value F → F → Type 0
HasFloat fl (int z) x = fl.of_int z ≡ ok x
HasFloat fl (float y) x = y ≡ x
HasFloat fl (str t) x = ⊥
HasFloat fl (raw b) x = ⊥

-- What comes back, by the data type: the integer itself, its remainder by 2^8 or 2^16, or the float in
-- single precision.
abbrev pub ComesBack : {F : Type 0} → Floats F → (F → F) → DataType → Value F → Value F → Type 0
ComesBack fl rounded type_u8 v v' =
    (z : ℤ) × (w : ℕ) × (q : ℕ) × HasInteger fl v z × IsRemainder 0x100 z w q × (v' ≡ int (pos w))
ComesBack fl rounded type_u16 v v' =
    (z : ℤ) × (w : ℕ) × (q : ℕ) × HasInteger fl v z × IsRemainder 0x10000 z w q × (v' ≡ int (pos w))
ComesBack fl rounded type_packed v v' =
    (z : ℤ) × (w : ℕ) × (q : ℕ) × HasInteger fl v z × IsRemainder 0x10000 z w q × (v' ≡ int (pos w))
ComesBack fl rounded type_u32 v v' = (z : ℤ) × HasInteger fl v z × (v' ≡ int z)
ComesBack fl rounded type_s32 v v' = (z : ℤ) × HasInteger fl v z × (v' ≡ int z)
ComesBack fl rounded type_s16 v v' = (z : ℤ) × HasInteger fl v z × (v' ≡ int z)
ComesBack {F = F} fl rounded type_float v v' = (x : F) × HasFloat fl v x × (v' ≡ float (rounded x))
ComesBack fl rounded type_string v v' = ⊥

abbrev pub is_number : DataType → Bool
is_number type_string = false
is_number _ = true
