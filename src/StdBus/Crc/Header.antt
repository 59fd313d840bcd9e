-- ===== src/StdBus/Crc/Header.antt =====
-- Neither checksum loses a byte: a change of one byte always changes it.
use watlowlib.Base.{
  ℕ, zero, suc, ◌-◌, ◌/◌, ◌%◌, ◌≡◌, refl, sym, ap, ◌∙◌, true, [], ◌∷◌, ◌++◌, foldl, Bytes, IsByte,
  IsBytes, bit_xor, ◌==◌, ==_iff, arith,
}
use watlowlib.Base.Bits.{
  all_below, all_below_sound, bit_xor-cancel_left, bit_xor-cancel_right, bit_xor-lt,
}
use mathlib.Core.List.{foldl-append}
use watlowlib.StdBus.Crc.{header_mix, header_step, header_crc8}

iterate : ℕ → (ℕ → ℕ) → ℕ → ℕ
iterate zero f x = x
iterate (suc n) f x = iterate n f (f x)

-- `header_mix` permutes the bytes; its 63rd power is the identity.
header_mix_table : all_below 256 (λ x. iterate 62 header_mix (header_mix x) == x) ≡ true
unfolding all_below iterate header_mix
header_mix_table = refl

header_mix-inverse : (x : ℕ) → IsByte x → iterate 62 header_mix (header_mix x) ≡ x
header_mix-inverse x h = (==_iff _ x).0 (all_below_sound 256 _ x header_mix_table h)

header_mix_range : all_below 256 (λ x. header_mix x / 256 == 0) ≡ true
unfolding all_below header_mix
header_mix_range = refl

header_step-IsByte : (c b : ℕ) → IsByte c → IsByte b → IsByte (header_step c b)
unfolding header_step
header_step-IsByte c b hc hb = omega (
  arith,
  (==_iff _ 0).0 (all_below_sound 256 _ (bit_xor c b) header_mix_range (bit_xor-lt 8 c b hc hb)),
)

header_step_mixed :
    (c d a b : ℕ)
    → IsByte c
    → IsByte d
    → IsByte a
    → IsByte b
    → header_step c a ≡ header_step d b
    → bit_xor c a ≡ bit_xor d b
unfolding header_step
header_step_mixed c d a b hc hd ha hb e =
    sym (header_mix-inverse _ (bit_xor-lt 8 c a hc ha))
    ∙ ap (iterate 62 header_mix) e
    ∙ header_mix-inverse _ (bit_xor-lt 8 d b hd hb)

header_loop-IsByte : (c : ℕ) (bs : Bytes) → IsByte c → IsBytes bs → IsByte (foldl header_step c bs)
header_loop-IsByte c [] hc h = hc
header_loop-IsByte c (b ∷ bs) hc h =
    header_loop-IsByte (header_step c b) bs (header_step-IsByte c b hc h.0) h.1

header_loop_injective :
    (c d : ℕ) (bs : Bytes)
    → IsByte c
    → IsByte d
    → IsBytes bs
    → foldl header_step c bs ≡ foldl header_step d bs
    → c ≡ d
header_loop_injective c d [] hc hd h e = e
header_loop_injective c d (b ∷ bs) hc hd h e = bit_xor-cancel_right c d b (
    header_step_mixed c d b b hc hd h.0 h.0 (
      header_loop_injective (header_step c b) (header_step d b) bs (header_step-IsByte c b hc h.0)
        (header_step-IsByte d b hd h.0) h.1 e))

-- Two headers that differ in at most one byte and have the same header checksum are the same.
pub header_crc8_injective :
    (front back : Bytes) (a b : ℕ)
    → IsBytes front
    → IsBytes back
    → IsByte a
    → IsByte b
    → header_crc8 (front ++ a ∷ back) ≡ header_crc8 (front ++ b ∷ back)
    → a ≡ b
unfolding header_crc8
header_crc8_injective front back a b hf hk ha hb e = bit_xor-cancel_left start a b (
    header_step_mixed start start a b started started ha hb (
      header_loop_injective _ _ back (header_step-IsByte start a started ha)
        (header_step-IsByte start b started hb) hk whole))
  where
    start : ℕ
    start = foldl header_step 0xff front

    started : IsByte start
    started = header_loop-IsByte 0xff front (omega arith) hf

    range : (x : ℕ) → IsByte x → IsByte (foldl header_step (header_step start x) back)
    range x hx = header_loop-IsByte _ back (header_step-IsByte start x started hx) hk

    whole :
        foldl header_step (header_step start a) back ≡ foldl header_step (header_step start b) back
    whole = omega (
      arith,
      range a ha,
      range b hb,
      ap (λ (t : ℕ). 255 - t % 256) (foldl-append header_step 0xff front (a ∷ back)),
      ap (λ (t : ℕ). 255 - t % 256) (foldl-append header_step 0xff front (b ∷ back)),
      e,
    )
