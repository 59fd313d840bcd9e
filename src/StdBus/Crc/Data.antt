-- ===== src/StdBus/Crc/Data.antt =====
-- The data checksum loses no byte either: a change of one byte always changes it.
use watlowlib.Base.{
  ℕ, zero, suc, ◌-◌, ◌/◌, ◌%◌, ◌<◌, ◌≡◌, refl, sym, ap, ◌∙◌, true, [], ◌∷◌, ◌++◌, foldl, Bytes,
  IsByte, IsBytes, bit_xor, ◌==◌, ==_iff, arith,
}
use watlowlib.Base.Bits.{
  all_below, all_below_sound, bit_xor-cancel_left, bit_xor-cancel_right, bit_xor-lt, high-bit_xor,
  bit_xor_assoc, bit_and_mask, zero-bit_xor,
}
use mathlib.Core.List.{foldl-append}
use watlowlib.StdBus.Crc.{data_mix, data_step, data_crc16}

abbrev IsWord : ℕ → Type 0
IsWord w = w < 65536

-- The high byte of `data_mix` permutes the bytes.
high_mix : ℕ → ℕ
high_mix low = data_mix low / 256 % 256

powers : ℕ → ℕ → ℕ
powers zero x = x
powers (suc n) x = powers n (high_mix x)

high_mix_table : all_below 256 (λ x. powers 7 (high_mix x) == x) ≡ true
unfolding all_below powers high_mix data_mix
high_mix_table = refl

high_mix-inverse : (x : ℕ) → IsByte x → powers 7 (high_mix x) ≡ x
high_mix-inverse x h = (==_iff _ x).0 (all_below_sound 256 _ x high_mix_table h)

-- The byte of the running checksum that the table is entered with.
entry : ℕ → ℕ → ℕ
entry crc b = bit_xor (crc % 256) b

data_step_lem : (crc b : ℕ) → data_step crc b ≡ bit_xor (crc / 256) (data_mix (entry crc b)) % 65536
unfolding data_step data_mix entry
data_step_lem crc b = simp bit_xor_assoc (rw (bit_and_mask 8, bit_and_mask 16) refl)

data_step-IsWord : (crc b : ℕ) → IsWord (data_step crc b)
data_step-IsWord crc b = omega (arith, data_step_lem crc b)

-- The whole of `bit_xor (crc / 256) (data_mix low)` agrees with `data_mix low` above the low byte.
high-mixed : (crc m : ℕ) → IsWord crc → bit_xor (crc / 256) m / 256 ≡ m / 256
high-mixed crc m h =
    high-bit_xor (crc / 256) m
    ∙ ap (λ (t : ℕ). bit_xor t (m / 256)) none_left
    ∙ zero-bit_xor (m / 256)
  where
    none_left : crc / 256 / 256 ≡ 0
    none_left = omega arith

high-data_step : (crc b : ℕ) → IsWord crc → data_step crc b / 256 ≡ high_mix (entry crc b)
unfolding high_mix
high-data_step crc b h =
    omega (arith, data_step_lem crc b, high-mixed crc (data_mix (entry crc b)) h)

entry-IsByte : (crc b : ℕ) → IsByte b → IsByte (entry crc b)
unfolding entry
entry-IsByte crc b h = bit_xor-lt 8 (crc % 256) b (omega arith) h

module _ (c d a b : ℕ) (hc : IsWord c) (hd : IsWord d) (ha : IsByte a) (hb : IsByte b)
    (e : data_step c a ≡ data_step d b) where
  same_entry : entry c a ≡ entry d b
  same_entry =
      sym (high_mix-inverse _ (entry-IsByte c a ha))
      ∙ ap (powers 7)
          (sym (high-data_step c a hc) ∙ ap (λ (t : ℕ). t / 256) e ∙ high-data_step d b hd)
      ∙ high_mix-inverse _ (entry-IsByte d b hb)

  same_high : c / 256 ≡ d / 256
  same_high =
      bit_xor-cancel_right (c / 256) (d / 256) (data_mix (entry c a))
        (whole ∙ ap (λ (t : ℕ). bit_xor (d / 256) (data_mix t)) (sym same_entry))
    where
      whole : bit_xor (c / 256) (data_mix (entry c a)) ≡ bit_xor (d / 256) (data_mix (entry d b))
      whole = omega (
        arith,
        e,
        data_step_lem c a,
        data_step_lem d b,
        high-mixed c (data_mix (entry c a)) hc,
        high-mixed d (data_mix (entry d b)) hd,
        ap data_mix same_entry,
      )

data_step-cancel_crc :
    (c d b : ℕ) → IsWord c → IsWord d → IsByte b → data_step c b ≡ data_step d b → c ≡ d
data_step-cancel_crc c d b hc hd hb e = omega (arith, same_high c d b b hc hd hb hb e, low)
  where
    low : c % 256 ≡ d % 256
    low =
        bit_xor-cancel_right (c % 256) (d % 256) b
          (unfold entry in same_entry c d b b hc hd hb hb e)

data_step-cancel_byte :
    (c a b : ℕ) → IsWord c → IsByte a → IsByte b → data_step c a ≡ data_step c b → a ≡ b
data_step-cancel_byte c a b hc ha hb e =
    bit_xor-cancel_left (c % 256) a b (unfold entry in same_entry c c a b hc hc ha hb e)

pub data_loop-IsWord : (c : ℕ) (bs : Bytes) → IsWord c → IsWord (foldl data_step c bs)
data_loop-IsWord c [] hc = hc
data_loop-IsWord c (b ∷ bs) hc = data_loop-IsWord (data_step c b) bs (data_step-IsWord c b)

data_loop_injective :
    (c d : ℕ) (bs : Bytes)
    → IsWord c
    → IsWord d
    → IsBytes bs
    → foldl data_step c bs ≡ foldl data_step d bs
    → c ≡ d
data_loop_injective c d [] hc hd h e = e
data_loop_injective c d (b ∷ bs) hc hd h e = data_step-cancel_crc c d b hc hd h.0 (
    data_loop_injective (data_step c b) (data_step d b) bs (data_step-IsWord c b)
      (data_step-IsWord d b) h.1 e)

-- Two payloads that differ in at most one byte and have the same data checksum are the same.
pub data_crc16_injective :
    (front back : Bytes) (a b : ℕ)
    → IsBytes back
    → IsByte a
    → IsByte b
    → data_crc16 (front ++ a ∷ back) ≡ data_crc16 (front ++ b ∷ back)
    → a ≡ b
unfolding data_crc16
data_crc16_injective front back a b hk ha hb e =
    data_step-cancel_byte start a b started ha hb
      (data_loop_injective _ _ back (data_step-IsWord start a) (data_step-IsWord start b) hk whole)
  where
    start : ℕ
    start = foldl data_step 0xffff front

    started : IsWord start
    started = data_loop-IsWord 0xffff front (omega arith)

    whole : foldl data_step (data_step start a) back ≡ foldl data_step (data_step start b) back
    whole = omega (
      arith,
      data_loop-IsWord (data_step start a) back (data_step-IsWord start a),
      data_loop-IsWord (data_step start b) back (data_step-IsWord start b),
      ap (λ (t : ℕ). 65535 - t % 65536) (foldl-append data_step 0xffff front (a ∷ back)),
      ap (λ (t : ℕ). 65535 - t % 65536) (foldl-append data_step 0xffff front (b ∷ back)),
      e,
    )

-- Both bytes of the checksum are bytes, and they determine it.
pub data_crc16-lt : (bs : Bytes) → data_crc16 bs < 65536
unfolding data_crc16
data_crc16-lt bs = omega arith
