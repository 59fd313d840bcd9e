-- ===== src/StdBus/Value.antt =====
-- The Python values that a parameter takes, and what the code relies on of Python's `float`, which
-- is a parameter of the model: a type `F` with the operations of `Floats`.
use watlowlib.Base.{ℕ, ◌≡◌, ◌+◌, ◌*◌, ◌/◌, ◌%◌, List, [], ◌∷◌, Bytes, IsBytes, length}
use watlowlib.Base.Int.{ℤ}
use watlowlib.Result.{Result, ok}

-- `str` is its code points.
pub data Value (F : Type 0) : Type 0 where
  int : ℤ → Value F
  float : F → Value F
  str : List ℕ → Value F
  raw : Bytes → Value F

-- `float(n)`, `int(x)` and the four bytes of `struct` format `>f`; each but `unpack` may raise.
pub record Floats (F : Type 0) : Type 0 where
  pub of_int : ℤ → Result F
  pub to_int : F → Result ℤ
  pub pack : F → Result Bytes
  pub unpack : Bytes → F

-- `struct.pack(">f", x)` returns four bytes.
pub record PacksFour {F : Type 0} (fl : Floats F) : Type 0 where
  pub four : (x : F) (bs : Bytes) → fl.pack x ≡ ok bs → (length bs ≡ 4) × IsBytes bs

-- `struct.pack(">H", n)` and `(">I", n)`, for a number in range.
abbrev pub be16 : ℕ → Bytes
be16 n = n / 256 ∷ n % 256 ∷ []

abbrev pub be32 : ℕ → Bytes
be32 n = n / 16777216 ∷ n / 65536 % 256 ∷ n / 256 % 256 ∷ n % 256 ∷ []

-- `struct.unpack(">H", …)` and `(">I", …)`.
abbrev pub from_be16 : ℕ → ℕ → ℕ
from_be16 hi lo = hi * 256 + lo

abbrev pub from_be32 : ℕ → ℕ → ℕ → ℕ → ℕ
from_be32 a b c d = ((a * 256 + b) * 256 + c) * 256 + d

-- `class DataType` of tlv.py.
pub data DataType : Type 0 where
  type_u8 type_u16 type_u32 type_s32 type_float type_string type_packed type_s16 : DataType

-- `int(data_type)`
abbrev pub tag_of : DataType → ℕ
tag_of type_u8 = 0x01
tag_of type_u16 = 0x03
tag_of type_u32 = 0x05
tag_of type_s32 = 0x06
tag_of type_float = 0x08
tag_of type_string = 0x09
tag_of type_packed = 0x0f
tag_of type_s16 = 0x86
