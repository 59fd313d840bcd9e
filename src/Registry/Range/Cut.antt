-- ===== src/Registry/Range/Cut.antt =====
-- The upper bound that `_parse_range` reads.
use watlowlib.Base.{
  ℕ, ◌≡◌, refl, List, [], ◌∷◌, true, false, some, ◌==◌, Bool-cases, inl, inr, ==_iff,
}
use watlowlib.Registry.Pattern.{search, first}
use watlowlib.Registry.Range.{Classes, number, separator, range_re, both_bounds, parse_range}

-- The characters of a range that are no digits, and the space.
pub record IsAscii {F : Type 0} (cs : Classes F) : Type 0 where
  pub space_no_digit : cs.is_digit 32 ≡ false
  pub t_no_digit : cs.is_digit 116 ≡ false
  pub o_no_digit : cs.is_digit 111 ≡ false
  pub comma_no_digit : cs.is_digit 44 ≡ false
  pub minus_no_digit : cs.is_digit 45 ≡ false
  pub space_is_space : cs.is_space 32 ≡ true
  pub t_no_space : cs.is_space 116 ≡ false
  pub digit_no_space : (d : ℕ) → cs.is_digit d ≡ true → cs.is_space d ≡ false

first-eq-some :
    {A : Type 0} {a : A} (xs : List (A × List ℕ))
    → first xs ≡ some a
    → (r : List ℕ) × (ys : List (A × List ℕ)) × (xs ≡ (a, r) ∷ ys)
first-eq-some [] e = cc
first-eq-some ((b, r) ∷ xs) e = (r, xs, cc e)

module _ {F : Type 0} (cs : Classes F) (h : IsAscii cs) where
  not_minus : (d : ℕ) → cs.is_digit d ≡ true → (45 == d) ≡ false
  not_minus d e = elim (Bool-cases (45 == d)) [
    | inl same ↦ cc (h.minus_no_digit, e, (==_iff 45 d).0 same)
    | inr apart ↦ apart
  ]

  number_three :
      (a b c next : ℕ) (text : List ℕ)
      → cs.is_digit a ≡ true
      → cs.is_digit b ≡ true
      → cs.is_digit c ≡ true
      → (44 == next) ≡ false
      → (46 == next) ≡ false
      → first (number cs (a ∷ b ∷ c ∷ next ∷ text)) ≡ some (a ∷ b ∷ c ∷ [])
  unfolding number
  number_three a b c next text da db dc comma dot = rw (not_minus a da, da, db, dc, comma, dot) refl

  number_one :
      (lo : ℕ) (text : List ℕ)
      → cs.is_digit lo ≡ true
      → number cs (lo ∷ 32 ∷ text) ≡ (lo ∷ [], 32 ∷ text) ∷ (lo ∷ [], 32 ∷ text) ∷ []
  unfolding number
  number_one lo text dl = rw (not_minus lo dl, dl, h.space_no_digit) refl

  separator_to :
      (a : ℕ) (text : List ℕ)
      → cs.is_digit a ≡ true
      → separator cs (32 ∷ 116 ∷ 111 ∷ 32 ∷ a ∷ text)
        ≡ (32 ∷ 116 ∷ 111 ∷ 32 ∷ [], a ∷ text) ∷ (32 ∷ 116 ∷ 111 ∷ [], 32 ∷ a ∷ text) ∷ []
  separator_to a text da =
      rw (h.space_is_space, h.t_no_space) (rw h.space_is_space (rw (h.digit_no_space a da) refl))

  -- The match of a range of one digit to `a`, `b`, `c` and a character that is no comma and no point.
  search_three :
      (lo a b c next : ℕ) (text : List ℕ)
      → cs.is_digit lo ≡ true
      → cs.is_digit a ≡ true
      → cs.is_digit b ≡ true
      → cs.is_digit c ≡ true
      → (44 == next) ≡ false
      → (46 == next) ≡ false
      → search (range_re cs) (lo ∷ 32 ∷ 116 ∷ 111 ∷ 32 ∷ a ∷ b ∷ c ∷ next ∷ text)
        ≡ some (lo ∷ [], a ∷ b ∷ c ∷ [])
  unfolding range_re
  search_three lo a b c next text dl da db dc comma dot =
      let (behind, others, three) =
        first-eq-some (number cs (a ∷ b ∷ c ∷ next ∷ text))
          (number_three a b c next text da db dc comma dot) in
      rw (number_one lo (116 ∷ 111 ∷ 32 ∷ a ∷ b ∷ c ∷ next ∷ text) dl)
        (rw (separator_to a (b ∷ c ∷ next ∷ text) da) (rw three refl))

  not_comma : (d : ℕ) → cs.is_digit d ≡ true → (d == 44) ≡ false
  not_comma d e = elim (Bool-cases (d == 44)) [
    | inl same ↦ cc (h.comma_no_digit, e, (==_iff d 44).0 same)
    | inr apart ↦ apart
  ]

  -- The upper bound of a range "x to abc…", of digits, is read as `abc` whatever follows, if that is not a
  -- comma or a point: a bound of four digits or more without separators is cut to its first three.
  pub parse_range_cut :
      (lo a b c next : ℕ) (text : List ℕ)
      → cs.is_digit lo ≡ true
      → cs.is_digit a ≡ true
      → cs.is_digit b ≡ true
      → cs.is_digit c ≡ true
      → (44 == next) ≡ false
      → (46 == next) ≡ false
      → parse_range cs (some (lo ∷ 32 ∷ 116 ∷ 111 ∷ 32 ∷ a ∷ b ∷ c ∷ next ∷ text))
        ≡ both_bounds (cs.to_float (lo ∷ [])) (cs.to_float (a ∷ b ∷ c ∷ []))
  unfolding parse_range
  parse_range_cut lo a b c next text dl da db dc comma dot =
      rw
        (
          search_three lo a b c next text dl da db dc comma dot,
          not_comma lo dl,
          not_comma a da,
          not_comma b db,
          not_comma c dc,
        )
        refl
