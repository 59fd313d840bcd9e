-- ===== src/Registry/Pattern.antt =====
-- Regular expressions of Python's `re`, as what they match at the head of a text: each way to match, with
-- the rest of the text behind it, in the order in which `re` tries them.
use watlowlib.Base.{
  ℕ, zero, suc, List, [], ◌∷◌, ◌++◌, Bool, Option, none, some, length, ◌==◌, if◌then◌else◌,
}

abbrev pub Pattern : Type 0 → Type 0
Pattern A = List ℕ → List (A × List ℕ)

abbrev collect :
    {A B : Type 0} → (A × List ℕ → List (B × List ℕ)) → List (A × List ℕ) → List (B × List ℕ)
collect f [] = []
collect f (x ∷ xs) = f x ++ collect f xs

abbrev pub nothing : Pattern (List ℕ)
nothing text = ([], text) ∷ []

-- A character class.
abbrev pub one : (ℕ → Bool) → Pattern (List ℕ)
one class [] = []
one class (c ∷ text) = if class c then (c ∷ [], text) ∷ [] else []

abbrev pub char : ℕ → Pattern (List ℕ)
char c = one (λ d. c == d)

-- `pq`, with what `f` makes of the two matches.
abbrev pub both : {A B C : Type 0} → (A → B → C) → Pattern A → Pattern B → Pattern C
both f p q text = collect (λ x. collect (λ y. (f x.0 y.0, y.1) ∷ []) (q x.1)) (p text)

-- `p`, and then a pattern that may use what `p` matched.
abbrev pub bind : {A B : Type 0} → Pattern A → (A → Pattern B) → Pattern B
bind p next text = collect (λ x. next x.0 x.1) (p text)

abbrev pub give : {A : Type 0} → A → Pattern A
give a text = (a, text) ∷ []

abbrev pub seq : Pattern (List ℕ) → Pattern (List ℕ) → Pattern (List ℕ)
seq = both (λ a b. a ++ b)

-- `p|q`
abbrev pub either : {A : Type 0} → Pattern A → Pattern A → Pattern A
either p q text = p text ++ q text

-- `p?`
abbrev pub maybe : Pattern (List ℕ) → Pattern (List ℕ)
maybe p = either p nothing

-- `p{0,n}`
abbrev pub up_to : ℕ → Pattern (List ℕ) → Pattern (List ℕ)
up_to zero p = nothing
up_to (suc n) p = maybe (seq p (up_to n p))

-- `p*` and `p+`, of a pattern that matches at least one character: no more matches than characters.
abbrev pub many : Pattern (List ℕ) → Pattern (List ℕ)
many p text = up_to (length text) p text

abbrev pub some_of : Pattern (List ℕ) → Pattern (List ℕ)
some_of p = seq p (many p)

abbrev pub first : {A B : Type 0} → List (A × B) → Option A
first [] = none
first (x ∷ xs) = some x.0

-- `re.match` and `re.search`, of a pattern.
abbrev pub match_text : {A : Type 0} → Pattern A → List ℕ → Option A
match_text p text = first (p text)

abbrev found_or : {A : Type 0} → Option A → Option A → Option A
found_or none rest = rest
found_or (some a) rest = some a

abbrev pub search : {A : Type 0} → Pattern A → List ℕ → Option A
search p [] = match_text p []
search p (c ∷ text) = found_or (match_text p (c ∷ text)) (search p text)
