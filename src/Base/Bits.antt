-- ===== src/Base/Bits.antt =====
-- Shifts and masks as arithmetic, and the laws of `^` by recursion on the lowest binary digit.
use Prim.Native.Nat.{ℕ, zero, suc, ◌+◌, ◌-◌, ◌*◌, ◌/◌, ◌%◌, ◌^◌, ◌≤◌, ◌<◌, max}
use Prim.Native.Nat.{min, bit_and, bit_or, bit_xor, bitwise, digits, differ}
use Prim.Native.Nat.{bit_and-bitwise, bit_or-bitwise, bit_xor-bitwise}
use native.Mathlib.Nat.{le_refl, pow-suc, one-le-pow}
use mathlib.Core.Path.{◌≡◌, refl, ap, ◌∙◌}
use mathlib.Core.Bool.{Bool, true, ◌&&◌}
use native.Mathlib.Omega.{arith}

-- x << k
abbrev pub shl : ℕ → ℕ → ℕ
shl x k = x * 2 ^ k

-- x >> k
abbrev pub shr : ℕ → ℕ → ℕ
shr x k = x / 2 ^ k

-- A property of every number below a bound, by evaluation.
unfoldable pub all_below : ℕ → (ℕ → Bool) → Bool
all_below zero test = true
all_below (suc bound) test = test bound && all_below bound test

pub all_below_sound :
    (bound : ℕ) (test : ℕ → Bool) (k : ℕ) → all_below bound test ≡ true → k < bound → test k ≡ true
unfolding all_below
all_below_sound zero test k every small = absurd (omega arith)
all_below_sound (suc bound) test k every small = ground (arith, all_below_sound bound test k)

module _ (z : ℕ → ℕ) (f : ℕ → ℕ → ℕ) where
  -- More digits than the number has make no difference.
  enough_digits : (i j x y : ℕ) → x ≤ i → x ≤ j → digits z f i x y ≡ digits z f j x y
  enough_digits zero zero a b p q = refl
  enough_digits zero (suc m) zero b p q = refl
  enough_digits zero (suc m) (suc a) b p q = absurd (omega arith)
  enough_digits (suc n) zero zero b p q = refl
  enough_digits (suc n) zero (suc a) b p q = absurd (omega arith)
  enough_digits (suc n) (suc m) zero b p q = refl
  enough_digits (suc n) (suc m) (suc a) b p q =
      rw (enough_digits n m (suc a / 2) (b / 2) (omega arith) (omega arith))

  low_digit :
      (x y : ℕ)
      → bitwise z f (suc x) y ≡ bitwise z f (suc x / 2) (y / 2) * 2 + f (suc x % 2) (y % 2)
  low_digit x y =
      omega (arith, enough_digits x (suc x / 2) (suc x / 2) (y / 2) (omega arith) (le_refl _))

differ_lem : (x y : ℕ) → x < 2 → y < 2 → differ x y ≡ (x + y) % 2
differ_lem zero y p q = omega arith
differ_lem (suc zero) zero p q = refl
differ_lem (suc zero) (suc zero) p q = refl
differ_lem (suc zero) (suc (suc y)) p q = absurd (omega arith)
differ_lem (suc (suc x)) y p q = absurd (omega arith)

pub bit_or_low : (x y : ℕ) → bit_or x y ≡ bit_or (x / 2) (y / 2) * 2 + max (x % 2) (y % 2)
bit_or_low zero b = simp bit_or-bitwise (omega arith)
bit_or_low (suc a) b = simp bit_or-bitwise (low_digit (λ y. y) max a b)

pub bit_and_low : (x y : ℕ) → bit_and x y ≡ bit_and (x / 2) (y / 2) * 2 + min (x % 2) (y % 2)
bit_and_low zero b = simp bit_and-bitwise (omega arith)
bit_and_low (suc a) b = simp bit_and-bitwise (low_digit (λ y. 0) min a b)

bit_and-zero_upto : (n a : ℕ) → a ≤ n → bit_and a 0 ≡ 0
bit_and-zero_upto n zero h = refl
bit_and-zero_upto zero (suc a) h = absurd (omega arith)
bit_and-zero_upto (suc n) (suc a) h =
    omega (arith, bit_and_low (suc a) 0, bit_and-zero_upto n (suc a / 2) (omega arith))

low_part : (k hi lo : ℕ) → lo < 2 ^ k → bit_and (lo + shl hi k) (2 ^ k - 1) ≡ lo
low_part zero hi lo h =
    omega (arith, bit_and-zero_upto (lo + hi * 2 ^ zero) (lo + hi * 2 ^ zero) (omega arith))
low_part (suc k) hi lo h = ground (
  arith,
  pow-suc 2 k,
  one-le-pow k 2,
  ap (λ (t : ℕ). hi * t) (pow-suc 2 k),
  bit_and_low (lo + shl hi (suc k)) (2 ^ suc k - 1),
  low_part k hi (lo / 2),
)

-- A mask of k ones keeps the remainder by 2 ^ k.
pub bit_and_mask : (k a : ℕ) → bit_and a (2 ^ k - 1) ≡ a % 2 ^ k
bit_and_mask k a = ground (arith, one-le-pow k 2, low_part k (a / 2 ^ k) (a % 2 ^ k))

pub bit_xor_low : (a b : ℕ) → bit_xor a b ≡ bit_xor (a / 2) (b / 2) * 2 + (a + b) % 2
bit_xor_low zero b = simp bit_xor-bitwise (omega arith)
bit_xor_low (suc a) b = omega (
  arith,
  xor_digits (suc a) b,
  xor_digits (suc a / 2) (b / 2),
  low_digit (λ y. y) differ a b,
  differ_lem (suc a % 2) (b % 2) (omega arith) (omega arith),
)
  where
    xor_digits : (x y : ℕ) → bit_xor x y ≡ bitwise (λ t. t) differ x y
    xor_digits x y = λ i. bit_xor-bitwise x y i

bit_or-zero_upto : (n a : ℕ) → a ≤ n → bit_or a 0 ≡ a
bit_or-zero_upto zero zero h = refl
bit_or-zero_upto zero (suc a) h = absurd (omega arith)
bit_or-zero_upto (suc n) zero h = refl
bit_or-zero_upto (suc n) (suc a) h =
    omega (arith, bit_or_low (suc a) 0, bit_or-zero_upto n (suc a / 2) (omega arith))

-- `(x << k) | y` is a sum where `y` fits into k bits.
pub bit_or-shl : (k x y : ℕ) → y < 2 ^ k → bit_or (shl x k) y ≡ shl x k + y
bit_or-shl zero x y h = ground (arith, bit_or-zero_upto x x)
bit_or-shl (suc k) x y h = ground (
  arith,
  bit_or_low (x * 2 ^ suc k) y,
  ap (λ (t : ℕ). x * t) (pow-suc 2 k),
  pow-suc 2 k,
  bit_or-shl k x (y / 2),
)

bit_xor-cancel_upto : (n a b c : ℕ) → a ≤ n → b ≤ n → bit_xor a c ≡ bit_xor b c → a ≡ b
bit_xor-cancel_upto zero a b c p q h = omega arith
bit_xor-cancel_upto (suc n) a b c p q h = omega (
  arith,
  bit_xor_low a c,
  bit_xor_low b c,
  bit_xor-cancel_upto n (a / 2) (b / 2) (c / 2) (omega arith) (omega arith)
      (omega (arith, bit_xor_low a c, bit_xor_low b c)),
)

-- `^` by a fixed number loses nothing.
pub bit_xor-cancel_right : (a b c : ℕ) → bit_xor a c ≡ bit_xor b c → a ≡ b
bit_xor-cancel_right a b c h = bit_xor-cancel_upto (a + b) a b c (omega arith) (omega arith) h

bit_xor_comm_upto : (n a b : ℕ) → a ≤ n → b ≤ n → bit_xor a b ≡ bit_xor b a
bit_xor_comm_upto zero zero zero p q = refl
bit_xor_comm_upto zero zero (suc b) p q = absurd (omega arith)
bit_xor_comm_upto zero (suc a) b p q = absurd (omega arith)
bit_xor_comm_upto (suc n) a b p q = omega (
  arith,
  bit_xor_low a b,
  bit_xor_low b a,
  bit_xor_comm_upto n (a / 2) (b / 2) (omega arith) (omega arith),
)

pub bit_xor_comm : (a b : ℕ) → bit_xor a b ≡ bit_xor b a
bit_xor_comm a b = bit_xor_comm_upto (a + b) a b (omega arith) (omega arith)

pub bit_xor-cancel_left : (c a b : ℕ) → bit_xor c a ≡ bit_xor c b → a ≡ b
bit_xor-cancel_left c a b h = bit_xor-cancel_right a b c (bit_xor_comm a c ∙ h ∙ bit_xor_comm c b)

pub zero-bit_xor : (b : ℕ) → bit_xor 0 b ≡ b
zero-bit_xor b = bit_xor-bitwise 0 b

-- The numbers below 2 ^ k are closed under `^`.
pub bit_xor-lt : (k a b : ℕ) → a < 2 ^ k → b < 2 ^ k → bit_xor a b < 2 ^ k
bit_xor-lt zero a b p q =
    ground (arith, bit_xor_comm a b, zero-bit_xor 0, below_one a p, below_one b q)
  where
    below_one : (x : ℕ) → x < 1 → x ≡ 0
    below_one x h = omega arith
bit_xor-lt (suc k) a b p q = omega (
  arith,
  pow-suc 2 k,
  bit_xor_low a b,
  bit_xor-lt k (a / 2) (b / 2) (omega (arith, pow-suc 2 k)) (omega (arith, pow-suc 2 k)),
)

half-bit_xor : (a b : ℕ) → bit_xor a b / 2 ≡ bit_xor (a / 2) (b / 2)
half-bit_xor a b = omega (arith, bit_xor_low a b)

quarter-bit_xor : (a b : ℕ) → bit_xor a b / 16 ≡ bit_xor (a / 16) (b / 16)
quarter-bit_xor a b = rw (
  sixteenth a,
  sixteenth b,
  sixteenth (bit_xor a b),
  half-bit_xor a b,
  half-bit_xor (a / 2) (b / 2),
  half-bit_xor (a / 2 / 2) (b / 2 / 2),
  half-bit_xor (a / 2 / 2 / 2) (b / 2 / 2 / 2),
)
  where
    sixteenth : (x : ℕ) → x / 16 ≡ x / 2 / 2 / 2 / 2
    sixteenth x = omega arith

-- `^` works on each byte by itself: the high bytes.
pub high-bit_xor : (a b : ℕ) → bit_xor a b / 256 ≡ bit_xor (a / 256) (b / 256)
high-bit_xor a b =
    rw (
      split a,
      split b,
      split (bit_xor a b),
      quarter-bit_xor a b,
      quarter-bit_xor (a / 16) (b / 16),
    )
  where
    split : (x : ℕ) → x / 256 ≡ x / 16 / 16
    split x = omega arith

bit_xor_assoc_upto :
    (n a b c : ℕ) → a ≤ n → b ≤ n → c ≤ n → bit_xor (bit_xor a b) c ≡ bit_xor a (bit_xor b c)
bit_xor_assoc_upto zero zero zero zero p q r = refl
bit_xor_assoc_upto zero zero zero (suc c) p q r = absurd (omega arith)
bit_xor_assoc_upto zero zero (suc b) c p q r = absurd (omega arith)
bit_xor_assoc_upto zero (suc a) b c p q r = absurd (omega arith)
bit_xor_assoc_upto (suc n) a b c p q r = ground (
  arith,
  bit_xor_low (bit_xor a b) c,
  bit_xor_low a (bit_xor b c),
  bit_xor_low a b,
  bit_xor_low b c,
  half-bit_xor a b,
  half-bit_xor b c,
  bit_xor_assoc_upto n (a / 2) (b / 2) (c / 2),
)

pub bit_xor_assoc : (a b c : ℕ) → bit_xor (bit_xor a b) c ≡ bit_xor a (bit_xor b c)
bit_xor_assoc a b c = bit_xor_assoc_upto (a + b + c) a b c (omega arith) (omega arith) (omega arith)
