-- ===== src/StdBus/Tlv/Bounds.antt =====
-- `decode_value` never claims more bytes than it was given, and returns the tag that it read.
use watlowlib.Base.{ℕ, suc, ◌≤◌, ◌≡◌, ap, sym, arith, [], ◌∷◌, Bytes, length}
use watlowlib.Result.{ok}
use watlowlib.StdBus.Value.{Value, Floats}
use watlowlib.StdBus.Tlv.{decode_value}

module _ {F : Type 0} (fl : Floats F) where
  -- A decoded value has the tag that stands first in the buffer, and takes at least two of its bytes
  -- and at most all of them.
  pub decode_value_bounds :
      (buf : Bytes) (w : Value F) (tag n : ℕ)
      → decode_value fl buf ≡ ok (w, tag, n)
      → (2 ≤ n) × (n ≤ length buf) × ((rest : Bytes) × (buf ≡ tag ∷ rest))
  unfolding decode_value
  decode_value_bounds [] w tag n h = cc
  decode_value_bounds (t ∷ rest) w tag n h =
      (facts.0, facts.1, (rest, ap (λ (x : ℕ). x ∷ rest) (sym facts.2)))
    where
      facts : (2 ≤ n) × (n ≤ suc (length rest)) × (tag ≡ t)
      facts = ground arith
