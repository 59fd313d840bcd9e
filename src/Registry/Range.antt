-- ===== src/Registry/Range.antt =====
-- src/watlowlib/registry/parameters.py: `_parse_range`. The character classes `\d` and `\s` of `re`, which
-- take in all of Unicode, and `float(text)` are parameters.
pub mod Cut
use watlowlib.Base.{
  ℕ, ◌≡◌, refl, List, [], ◌∷◌, ◌++◌, Bool, true, false, Option, none, some, ◌==◌, if◌then◌else◌,
}
use watlowlib.Registry.Pattern.{
  Pattern, char, one, both, seq, either, maybe, up_to, many, some_of, search,
}

pub record Classes (F : Type 0) : Type 0 where
  pub is_digit : ℕ → Bool
  pub is_space : ℕ → Bool
  -- `none` is `ValueError`
  pub to_float : List ℕ → Option F

module _ {F : Type 0} (cs : Classes F) where
  abbrev digit : Pattern (List ℕ)
  digit = one cs.is_digit

  -- `(?:\.\d+)?`
  abbrev fraction : Pattern (List ℕ)
  fraction = maybe (seq (char b'.') (some_of digit))

  -- `_NUMBER`
  unfoldable pub number : Pattern (List ℕ)
  number =
      either
        (seq (maybe (char b'-')) (
          seq (seq digit (up_to 2 digit))
            (seq (many (seq (char b',') (seq digit (seq digit digit)))) fraction)))
        (seq (maybe (char b'-')) (seq (some_of digit) fraction))

  -- `\s*(?:to|,|-)\s*`
  abbrev pub separator : Pattern (List ℕ)
  separator = seq (many (one cs.is_space)) (
      seq (either (seq (char b't') (char b'o')) (either (char b',') (char b'-')))
        (many (one cs.is_space)))

  -- `_RANGE_RE`, with the groups `lo` and `hi`
  unfoldable pub range_re : Pattern (List ℕ × List ℕ)
  range_re = both (λ lo hi. (lo, hi)) number (both (λ gap hi. hi) separator number)

abbrev without_commas : List ℕ → List ℕ
without_commas [] = []
without_commas (c ∷ text) = if c == b',' then without_commas text else c ∷ without_commas text

abbrev pub both_bounds : {F : Type 0} → Option F → Option F → Option F × Option F
both_bounds none hi = (none, none)
both_bounds (some lo) none = (none, none)
both_bounds (some lo) (some hi) = (some lo, some hi)

-- What `_parse_range` makes of the match.
abbrev pub bounds_of : {F : Type 0} → Classes F → Option (List ℕ × List ℕ) → Option F × Option F
bounds_of cs none = (none, none)
bounds_of cs (some (lo, hi)) =
    both_bounds (cs.to_float (without_commas lo)) (cs.to_float (without_commas hi))

-- `none` is a value that is no string.
unfoldable pub parse_range : {F : Type 0} → Classes F → Option (List ℕ) → Option F × Option F
parse_range cs none = (none, none)
parse_range cs (some text) = bounds_of cs (search (range_re cs) text)
