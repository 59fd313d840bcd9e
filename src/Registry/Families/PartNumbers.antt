-- ===== src/Registry/Families/PartNumbers.antt =====
-- Part numbers of the PM family.
use watlowlib.Base.{ℕ, ◌≡◌, refl, ap, ◌∙◌, List, [], ◌∷◌, Bool, true, some, All}
use watlowlib.Base.Text.{codes}
use watlowlib.Registry.Pattern.{one, many, match_text}
use watlowlib.Registry.Families.{
  pm, is_letter, is_alnum, is_option, PmGroups, options_end, pm_part_re, details_of,
  classify_family, decode_pm, decode_part_number, detail, pm_comms_code,
}

-- Characters of one class are matched to the end of the text first.
many-All :
    (class : ℕ → Bool) (text : List ℕ)
    → All (λ c. class c ≡ true) text
    → (ys : List (List ℕ × List ℕ)) × (many (one class) text ≡ (text, []) ∷ ys)
many-All class [] h = ([], refl)
many-All class (c ∷ text) (hc, h) = let (ys, e) = many-All class text h in rw hc (rw e (_, refl))

-- A part number of the PM family, in the shape "PM", size, control, power, both outputs, "-", options.
pub record IsPartNumber (size control power output_1 output_2 first : ℕ) (rest : List ℕ)
    : Type 0 where
  pub size_char : is_alnum size ≡ true
  pub control_char : is_letter control ≡ true
  pub power_char : is_alnum power ≡ true
  pub output_1_char : is_alnum output_1 ≡ true
  pub output_2_char : is_alnum output_2 ≡ true
  pub first_char : is_option first ≡ true
  pub rest_chars : All (λ c. is_option c ≡ true) rest

module _ (size control power output_1 output_2 first : ℕ) (rest : List ℕ)
    (h : IsPartNumber size control power output_1 output_2 first rest) where
  abbrev pub written : List ℕ
  written = b'P' ∷ b'M' ∷ size ∷ control ∷ power ∷ output_1 ∷ output_2 ∷ b'-' ∷ first ∷ rest

  abbrev groups : PmGroups
  groups = record {
    size = size ∷ [];
    control = control ∷ [];
    power = power ∷ [];
    output_1 = output_1 ∷ [];
    output_2 = output_2 ∷ [];
    options = first ∷ rest;
  }

  options_end_all :
      (ys : List (List ℕ × List ℕ)) × (options_end (b'-' ∷ first ∷ rest) ≡ (first ∷ rest, []) ∷ ys)
  options_end_all =
      let (ys, e) = many-All is_option rest h.rest_chars in rw h.first_char (rw e (_, refl))

  matched : match_text pm_part_re written ≡ some groups
  unfolding pm_part_re
  matched = rw h.size_char (
      rw h.control_char
        (rw h.power_char (rw h.output_1_char (rw h.output_2_char (rw (options_end_all.1) refl)))))

  module _ (strip upper : List ℕ → List ℕ) (raw : List ℕ) (e : upper (strip raw) ≡ written) where
    classified : classify_family strip upper raw ≡ pm
    unfolding classify_family
    classified = rw e refl

    detailed : decode_pm strip upper raw ≡ details_of (some groups)
    unfolding decode_pm
    detailed = ap (λ t. details_of (match_text pm_part_re t)) e ∙ ap details_of matched

    decoded :
        decode_part_number strip upper raw
        ≡ record { raw = raw; family = pm; details = details_of (some groups) }
    unfolding decode_part_number
    decoded = rw classified (rw detailed refl)

  -- Whatever string becomes such a part number by `str.strip` and `str.upper` is of the family PM; its
  -- details give the fields back, and the communications code is the first character of the options.
  pub decode_part_number-written :
      (strip upper : List ℕ → List ℕ) (raw : List ℕ)
      → upper (strip raw) ≡ written
      → ((decode_part_number strip upper raw).family ≡ pm)
        × (detail (decode_part_number strip upper raw) (codes "case_size") ≡ size ∷ [])
        × (detail (decode_part_number strip upper raw) (codes "control_type") ≡ control ∷ [])
        × (detail (decode_part_number strip upper raw) (codes "power_input") ≡ power ∷ [])
        × (detail (decode_part_number strip upper raw) (codes "output_1") ≡ output_1 ∷ [])
        × (detail (decode_part_number strip upper raw) (codes "output_2") ≡ output_2 ∷ [])
        × (detail (decode_part_number strip upper raw) (codes "options") ≡ first ∷ rest)
        × (pm_comms_code (decode_part_number strip upper raw) ≡ some first)
  unfolding pm_comms_code
  decode_part_number-written strip upper raw e =
      rw (decoded strip upper raw e) (refl, refl, refl, refl, refl, refl, refl, refl)
