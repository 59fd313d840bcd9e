-- ===== src/Modbus/Ops/Transactions.antt =====
-- `ModbusOp` against the Modbus Application Protocol.
use watlowlib.Base.{
  ℕ, ◌+◌, ◌≤◌, ◌<◌, ◌≡◌, ◌⊎◌, inl, inr, refl, subst, arith, List, [], ◌∷◌, true, false, Option,
  none, some, length, All,
}
use watlowlib.Base.Int.{ℤ, pos, negsuc}
use watlowlib.Errors.{value_error}
use watlowlib.Result.{ok, err}
use watlowlib.Modbus.Ops.{
  ModbusFn, read_holding, read_input, write_register, write_registers, is_read, construct,
}

-- The limits of the constructor: a first register below 2^16, the counts of the function, and as many
-- values as registers for a write and none for a read.
abbrev CountAllowed : ModbusFn → ℕ → Type 0
CountAllowed read_holding n = (1 ≤ n) × (n ≤ 125)
CountAllowed read_input n = (1 ≤ n) × (n ≤ 125)
CountAllowed write_register n = n ≡ 1
CountAllowed write_registers n = (1 ≤ n) × (n ≤ 123)

abbrev ValuesAllowed : ModbusFn → ℕ → Option (List ℤ) → Type 0
ValuesAllowed fn n none = is_read fn ≡ true
ValuesAllowed fn n (some ws) = (is_read fn ≡ false) × (length ws ≡ n)

abbrev pub PassesChecks : ModbusFn → ℤ → ℤ → Option (List ℤ) → Type 0
PassesChecks fn (pos a) (pos n) v = (a ≤ 0xffff) × CountAllowed fn n × ValuesAllowed fn n v
PassesChecks fn (pos a) (negsuc n) v = ⊥
PassesChecks fn (negsuc a) n v = ⊥

accepted :
    (fn : ModbusFn) (a n : ℤ) (v : Option (List ℤ))
    → PassesChecks fn a n v
    → construct fn a n v ≡ ok (record { fn = fn; address = a; count = n; values = v })
unfolding construct
accepted read_holding (pos a) (pos n) none h = ground arith
accepted read_holding (pos a) (pos n) (some ws) h = cc (h.2.0)
accepted read_input (pos a) (pos n) none h = ground arith
accepted read_input (pos a) (pos n) (some ws) h = cc (h.2.0)
accepted write_register (pos a) (pos n) none h = cc (h.2)
accepted write_register (pos a) (pos n) (some ws) h = ground arith
accepted write_registers (pos a) (pos n) none h = cc (h.2)
accepted write_registers (pos a) (pos n) (some ws) h = ground arith
accepted fn (pos a) (negsuc n) v h = elim h [ ]
accepted fn (negsuc a) n v h = elim h [ ]

pub rejected :
    (fn : ModbusFn) (a n : ℤ) (v : Option (List ℤ))
    → (PassesChecks fn a n v → ⊥)
    → construct fn a n v ≡ err value_error
unfolding construct
rejected read_holding (pos a) (pos n) none h = ground arith
rejected read_holding (pos a) (pos n) (some ws) h = ground arith
rejected read_input (pos a) (pos n) none h = ground arith
rejected read_input (pos a) (pos n) (some ws) h = ground arith
rejected write_register (pos a) (pos n) none h = ground arith
rejected write_register (pos a) (pos n) (some ws) h = ground arith
rejected write_registers (pos a) (pos n) none h = ground arith
rejected write_registers (pos a) (pos n) (some ws) h = ground arith
rejected read_holding (pos a) (negsuc n) v h = ground arith
rejected read_input (pos a) (negsuc n) v h = ground arith
rejected write_register (pos a) (negsuc n) v h = ground arith
rejected write_registers (pos a) (negsuc n) v h = ground arith
rejected fn (negsuc a) n v h = ground arith

passes :
    (fn : ModbusFn) (a n : ℤ) (v : Option (List ℤ))
    → PassesChecks fn a n v ⊎ (¬ PassesChecks fn a n v)
passes fn (pos a) (negsuc n) v = inr (λ h. h)
passes fn (negsuc a) n v = inr (λ h. h)
passes read_holding (pos a) (pos n) none = ground arith
passes read_holding (pos a) (pos n) (some ws) = ground arith
passes read_input (pos a) (pos n) none = ground arith
passes read_input (pos a) (pos n) (some ws) = ground arith
passes write_register (pos a) (pos n) none = ground arith
passes write_register (pos a) (pos n) (some ws) = ground arith
passes write_registers (pos a) (pos n) none = ground arith
passes write_registers (pos a) (pos n) (some ws) = ground arith

abbrev pub IsWord : ℤ → Type 0
IsWord (pos n) = n < 0x10000
IsWord (negsuc n) = ⊥

-- The transactions of the Modbus Application Protocol with the function codes 3, 4, 6 and 16: the
-- registers lie in the 2^16 registers of a device, at most 125 are read and at most 123 written, and a
-- register holds 16 bits.
pub data Transaction : ModbusFn → ℤ → ℤ → Option (List ℤ) → Type 0 where
  reads_holding :
      (a n : ℕ) → 1 ≤ n → n ≤ 125 → a + n ≤ 0x10000 → Transaction read_holding (pos a) (pos n) none
  reads_input :
      (a n : ℕ) → 1 ≤ n → n ≤ 125 → a + n ≤ 0x10000 → Transaction read_input (pos a) (pos n) none
  writes_one :
      (a : ℕ) (w : ℤ)
      → a ≤ 0xffff
      → IsWord w
      → Transaction write_register (pos a) (pos 1) (some (w ∷ []))
  writes_many :
      (a : ℕ) (ws : List ℤ)
      → 1 ≤ length ws
      → length ws ≤ 123
      → a + length ws ≤ 0x10000
      → All IsWord ws
      → Transaction write_registers (pos a) (pos (length ws)) (some ws)

-- The last register lies past the end of the registers.
abbrev pub PastEnd : ℤ → ℤ → Type 0
PastEnd (pos a) (pos n) = 0x10000 < a + n
PastEnd (pos a) (negsuc n) = ⊥
PastEnd (negsuc a) n = ⊥

-- A value does not fit a register.
abbrev pub HasWide : List ℤ → Type 0
HasWide [] = ⊥
HasWide (w ∷ ws) = (¬ IsWord w) ⊎ HasWide ws

abbrev pub WideValues : Option (List ℤ) → Type 0
WideValues none = ⊥
WideValues (some ws) = HasWide ws

Transaction-PassesChecks :
    {fn : ModbusFn} {a n : ℤ} {v : Option (List ℤ)} → Transaction fn a n v → PassesChecks fn a n v
Transaction-PassesChecks (reads_holding a n low high end) =
    (omega (arith, low, end), (low, high), refl)
Transaction-PassesChecks (reads_input a n low high end) =
    (omega (arith, low, end), (low, high), refl)
Transaction-PassesChecks (writes_one a w end word) = (end, refl, (refl, refl))
Transaction-PassesChecks (writes_many a ws low high end words) =
    (omega (arith, low, end), (low, high), (refl, refl))

within : {fn : ModbusFn} {a n : ℤ} {v : Option (List ℤ)} → Transaction fn a n v → ¬ PastEnd a n
within (reads_holding a n low high end) past = absurd (omega (arith, end, past))
within (reads_input a n low high end) past = absurd (omega (arith, end, past))
within (writes_one a w end word) past = absurd (omega (arith, end, past))
within (writes_many a ws low high end words) past = absurd (omega (arith, end, past))

none_wide : (ws : List ℤ) → All IsWord ws → ¬ HasWide ws
none_wide [] words h = h
none_wide (w ∷ ws) words (inl h) = h words.0
none_wide (w ∷ ws) words (inr h) = none_wide ws words.1 h

fitting : {fn : ModbusFn} {a n : ℤ} {v : Option (List ℤ)} → Transaction fn a n v → ¬ WideValues v
fitting (reads_holding a n low high end) h = h
fitting (reads_input a n low high end) h = h
fitting (writes_one a w end word) h = none_wide (w ∷ []) (word, tt) h
fitting (writes_many a ws low high end words) h = none_wide ws words h

end_cases : (x : ℕ) → (x ≤ 0x10000) ⊎ (0x10000 < x)
end_cases x = ground arith

IsWord-dec : (w : ℤ) → IsWord w ⊎ (¬ IsWord w)
IsWord-dec (pos n) = ground arith
IsWord-dec (negsuc n) = inr (λ h. h)

words_cases : (ws : List ℤ) → All IsWord ws ⊎ HasWide ws
words_cases [] = inl tt
words_cases (w ∷ ws) = elim (IsWord-dec w) [
  | inr wide ↦ inr (inl wide)
  | inl word ↦ elim (words_cases ws) [ inl words ↦ inl (word, words) | inr wide ↦ inr (inr wide) ]
]

-- What the checks let through is a transaction, or it reaches too far.
reached :
    (fn : ModbusFn) (a n : ℤ) (v : Option (List ℤ))
    → PassesChecks fn a n v
    → Transaction fn a n v ⊎ (PastEnd a n ⊎ WideValues v)
reached read_holding (pos a) (pos n) none h = elim (end_cases (a + n)) [
  | inl end ↦ inl (reads_holding a n h.1.0 h.1.1 end)
  | inr past ↦ inr (inl past)
]
reached read_input (pos a) (pos n) none h = elim (end_cases (a + n)) [
  | inl end ↦ inl (reads_input a n h.1.0 h.1.1 end)
  | inr past ↦ inr (inl past)
]
reached read_holding (pos a) (pos n) (some ws) h = cc (h.2.0)
reached read_input (pos a) (pos n) (some ws) h = cc (h.2.0)
reached write_register (pos a) (pos n) none h = cc (h.2)
reached write_registers (pos a) (pos n) none h = cc (h.2)
reached write_register (pos a) (pos n) (some []) (end, one, shape) =
    absurd (omega (arith, one, shape.1))
reached write_register (pos a) (pos n) (some (w ∷ [])) (end, one, shape) = elim (IsWord-dec w) [
  | inl word ↦ inl (
      subst (λ k. Transaction write_register (pos a) (pos k) (some (w ∷ []))) shape.1
        (writes_one a w end word))
  | inr wide ↦ inr (inr (inl wide))
]
reached write_register (pos a) (pos n) (some (w ∷ x ∷ ws)) (end, one, shape) =
    absurd (omega (arith, one, shape.1))
reached write_registers (pos a) (pos n) (some ws) (end, limits, shape) =
    elim (end_cases (a + length ws)) [
      | inr past ↦ inr (inl (omega (arith, past, shape.1)))
      | inl inside ↦ elim (words_cases ws) [
        | inr wide ↦ inr (inr wide)
        | inl words ↦ inl (
            subst (λ k. Transaction write_registers (pos a) (pos k) (some ws)) shape.1
              (writes_many a ws (omega (arith, limits.0, shape.1))
                (omega (arith, limits.1, shape.1)) inside words))
      ]
    ]
reached fn (pos a) (negsuc n) v h = elim h [ ]
reached fn (negsuc a) n v h = elim h [ ]

-- Constructing an operation does one of three things. What is a transaction of the Modbus Application
-- Protocol is constructed with its fields unchanged. What is none, but has a first register below 2^16,
-- the counts of the function, and as many values as registers for a write and none for a read, is
-- constructed too: its last register lies past the end of the registers or a value does not fit 16 bits.
-- What breaks one of those limits is no transaction and raises `ValueError`.
pub construct-Transaction :
    (fn : ModbusFn) (a n : ℤ) (v : Option (List ℤ))
    → (Transaction fn a n v
        × (construct fn a n v ≡ ok (record { fn = fn; address = a; count = n; values = v })))
      ⊎ ((PastEnd a n ⊎ WideValues v)
          × (¬ Transaction fn a n v)
          × PassesChecks fn a n v
          × (construct fn a n v ≡ ok (record { fn = fn; address = a; count = n; values = v })))
      ⊎ ((¬ Transaction fn a n v)
          × (¬ PassesChecks fn a n v)
          × (construct fn a n v ≡ err value_error))
construct-Transaction fn a n v = elim (passes fn a n v) [
  | inr h ↦ inr (inr ((λ t. h (Transaction-PassesChecks t)), h, rejected fn a n v h))
  | inl h ↦ elim (reached fn a n v h) [
    | inl t ↦ inl (t, accepted fn a n v h)
    | inr (inl past) ↦ inr (inl (inl past, (λ t. within t past), h, accepted fn a n v h))
    | inr (inr wide) ↦ inr (inl (inr wide, (λ t. fitting t wide), h, accepted fn a n v h))
  ]
]
