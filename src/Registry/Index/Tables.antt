-- ===== src/Registry/Index/Tables.antt =====
-- Look-ups in the tables of a registry, and what a registry is.
use watlowlib.Base.{
  ℕ, ◌≡◌, ◌≢◌, ◌⊎◌, inl, inr, refl, sym, ap, subst, List, [], ◌∷◌, ◌++◌, map, none, some, ◌==◌, All,
  Bool-cases,
}
use watlowlib.Registry.Spec.{ParameterSpec}
use watlowlib.Registry.Index.{get_id, ParameterRegistry}

abbrev pub Mem : {A : Type 0} → A → List A → Type 0
Mem x [] = ⊥
Mem x (y ∷ ys) = (x ≡ y) ⊎ Mem x ys

pub All-Mem : {A : Type 0} (P : A → Type 0) (x : A) (xs : List A) → All P xs → Mem x xs → P x
All-Mem P x [] h m = elim m [ ]
All-Mem P x (y ∷ ys) h (inl e) = subst P (sym e) h.0
All-Mem P x (y ∷ ys) h (inr m) = All-Mem P x ys h.1 m

pub All-map :
    {A B : Type 0} (P : B → Type 0) (f : A → B) (xs : List A)
    → All (λ x. P (f x)) xs
    → All P (map f xs)
All-map P f [] h = tt
All-map P f (x ∷ xs) h = (h.0, All-map P f xs h.1)

pub All-imp :
    {A : Type 0} {P Q : A → Type 0} (f : (x : A) → P x → Q x) (xs : List A) → All P xs → All Q xs
All-imp f [] h = tt
All-imp f (x ∷ xs) h = (f x h.0, All-imp f xs h.1)

pub All-members : {A : Type 0} (xs : List A) → All (λ x. Mem x xs) xs
All-members [] = tt
All-members (x ∷ xs) = (inl refl, All-imp (λ y m. inr m) xs (All-members xs))

pub Mem-map : {A B : Type 0} (f : A → B) (x : A) (xs : List A) → Mem x xs → Mem (f x) (map f xs)
Mem-map f x [] m = m
Mem-map f x (y ∷ ys) (inl e) = inl (ap f e)
Mem-map f x (y ∷ ys) (inr m) = inr (Mem-map f x ys m)

module _ {V : Type 0} where
  pub get_id-append :
      (k : ℕ) (xs ys : List (ℕ × V)) → get_id k xs ≡ none → get_id k (xs ++ ys) ≡ get_id k ys
  unfolding get_id
  get_id-append k [] ys h = refl
  get_id-append k ((j, v) ∷ xs) ys h = elim (Bool-cases (j == k)) [
    | inl e ↦ absurd (cc (rw e at h))
    | inr e ↦ rw e (get_id-append k xs ys (rw e at h))
  ]

  pub get_id-append_some :
      (k : ℕ) (v : V) (xs ys : List (ℕ × V)) → get_id k xs ≡ some v → get_id k (xs ++ ys) ≡ some v
  unfolding get_id
  get_id-append_some k v [] ys h = absurd cc
  get_id-append_some k v ((j, w) ∷ xs) ys h = elim (Bool-cases (j == k)) [
    | inl e ↦ rw e (rw e at h)
    | inr e ↦ rw e (get_id-append_some k v xs ys (rw e at h))
  ]

-- No two rows have the same identifier.
abbrev pub UniqueIds : {F : Type 0} → List (ParameterSpec F) → Type 0
UniqueIds [] = Unit {0}
UniqueIds (s ∷ ss) = All (λ t. t.parameter_id ≢ s.parameter_id) ss × UniqueIds ss

-- The identifiers are unique, and the tables lead to rows of the registry, by their identifiers.
pub record IsRegistry {F : Type 0} (r : ParameterRegistry F) : Type 0 where
  pub unique : UniqueIds r.specs
  pub ids : All (λ e. (e.0 ≡ e.1.parameter_id) × Mem e.1 r.specs) r.by_id
  pub names : All (λ e. Mem e.1 r.specs) r.by_name
