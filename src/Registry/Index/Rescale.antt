-- ===== src/Registry/Index/Rescale.antt =====
-- `ParameterRegistry.with_decimal_places`: what the copy resolves.
use watlowlib.Base.{
  ℕ, ◌≡◌, ◌≢◌, ◌⊎◌, inl, inr, refl, sym, ap, ◌∙◌, subst, arith, List, [], ◌∷◌, ◌++◌, map, Bool,
  true, false, ◌&&◌, not, Option, none, some, bytes_eq, length, ◌==◌, if◌then◌else◌, All,
  Bool-cases,
}
use watlowlib.Base.Int.{pos}
use watlowlib.Errors.{validation_error}
use watlowlib.Result.{Result, ok, err, stuck}
use watlowlib.Registry.Spec.{ParameterSpec, Name, Arith}
use watlowlib.Registry.Index.{
  get_id, get_name, or_else, ParameterRegistry, is_bound, rescaled, swap, swap_ids, swap_names,
  with_decimal_places, resolve_id, resolve_name,
}
use watlowlib.Registry.Index.Tables.{
  Mem, All-Mem, get_id-append, get_id-append_some, UniqueIds, IsRegistry,
}

module _ {F : Type 0} (ar : Arith F) (reg : ℕ) (scale : F) where
  -- A row of which the decimal places are those of the register gets the scale, and no other.
  abbrev pub needs : ParameterSpec F → Bool
  needs spec = is_bound ar reg spec && not (ar.eq spec.scale scale)

  abbrev pub rescale : ParameterSpec F → ParameterSpec F
  rescale spec = if needs spec then record spec { scale = scale } else spec

  not_rescaled :
      (k : ℕ) (ss : List (ParameterSpec F))
      → All (λ t. t.parameter_id ≢ k) ss
      → get_id k (rescaled ar reg scale ss) ≡ none
  unfolding rescaled get_id
  not_rescaled k [] h = refl
  not_rescaled k (t ∷ ts) h = elim (Bool-cases (needs t)) [
    | inr e ↦ rw e (not_rescaled k ts h.1)
    | inl e ↦ rw e (
        get_id-append k (rescaled ar reg scale ts)
          ((t.parameter_id, record t { scale = scale }) ∷ []) (not_rescaled k ts h.1)
        ∙ ground (arith, h.0))
  ]

  abbrev entry : ParameterSpec F → Option (ParameterSpec F)
  entry spec = if needs spec then some (record spec { scale = scale }) else none

  get_id-rescaled :
      (s : ParameterSpec F) (ss : List (ParameterSpec F))
      → UniqueIds ss
      → Mem s ss
      → get_id s.parameter_id (rescaled ar reg scale ss) ≡ entry s
  unfolding rescaled get_id
  get_id-rescaled s [] u m = elim m [ ]
  get_id-rescaled s (t ∷ ts) u (inl e) =
      subst (λ x. get_id x.parameter_id (rescaled ar reg scale (t ∷ ts)) ≡ entry x) (sym e) at_head
    where
      at_head : get_id t.parameter_id (rescaled ar reg scale (t ∷ ts)) ≡ entry t
      at_head = elim (Bool-cases (needs t)) [
        | inr off ↦ rw off (not_rescaled t.parameter_id ts u.0)
        | inl on ↦ rw on (
            get_id-append t.parameter_id (rescaled ar reg scale ts)
              ((t.parameter_id, record t { scale = scale }) ∷ [])
              (not_rescaled t.parameter_id ts u.0)
            ∙ ground arith)
      ]
  get_id-rescaled s (t ∷ ts) u (inr m) = elim (Bool-cases (needs t)) [
    | inr off ↦ rw off (get_id-rescaled s ts u.1 m)
    | inl on ↦ rw on (behind (Bool-cases (needs s)) (get_id-rescaled s ts u.1 m))
  ]
    where
      apart : s.parameter_id ≢ t.parameter_id
      apart = All-Mem (λ x. x.parameter_id ≢ t.parameter_id) s ts u.0 m

      last : List (ℕ × ParameterSpec F)
      last = (t.parameter_id, record t { scale = scale }) ∷ []

      behind :
          (needs s ≡ true) ⊎ (needs s ≡ false)
          → get_id s.parameter_id (rescaled ar reg scale ts) ≡ entry s
          → get_id s.parameter_id (rescaled ar reg scale ts ++ last) ≡ entry s
      behind (inl e) ih =
          get_id-append_some s.parameter_id (record s { scale = scale }) (rescaled ar reg scale ts)
            last (ih ∙ rw e refl)
          ∙ rw e refl
      behind (inr e) ih =
          get_id-append s.parameter_id (rescaled ar reg scale ts) last (ih ∙ rw e refl)
          ∙ ground (arith, e, apart)

  -- On a row of the registry, the table gives the row with its new scale.
  swap-rescaled :
      (s : ParameterSpec F) (ss : List (ParameterSpec F))
      → UniqueIds ss
      → Mem s ss
      → or_else (get_id s.parameter_id (rescaled ar reg scale ss)) s ≡ rescale s
  unfolding or_else
  swap-rescaled s ss u m =
      rw (get_id-rescaled s ss u m)
        (elim (Bool-cases (needs s)) [ inl e ↦ rw e refl | inr e ↦ rw e refl ])

  -- The tables: each entry found is the entry found before, rescaled.
  abbrev map_row : Option (ParameterSpec F) → Option (ParameterSpec F)
  map_row none = none
  map_row (some s) = some (rescale s)

  module _ (ss : List (ParameterSpec F)) (u : UniqueIds ss) where
    get_id-swap :
        (k : ℕ) (d : List (ℕ × ParameterSpec F))
        → All (λ e. (e.0 ≡ e.1.parameter_id) × Mem e.1 ss) d
        → get_id k (swap_ids ar (rescaled ar reg scale ss) d) ≡ map_row (get_id k d)
    unfolding get_id swap_ids
    get_id-swap k [] h = refl
    get_id-swap k ((j, s) ∷ d) ((e, m), h) = elim (Bool-cases (j == k)) [
      | inl hit ↦ rw (hit, e) (ap some (swap-rescaled s ss u m))
      | inr miss ↦ rw miss (get_id-swap k d h)
    ]

    get_name-swap :
        (k : Name) (d : List (Name × ParameterSpec F))
        → All (λ e. Mem e.1 ss) d
        → get_name k (swap_names ar (rescaled ar reg scale ss) d) ≡ map_row (get_name k d)
    unfolding get_name swap_names swap
    get_name-swap k [] h = refl
    get_name-swap k ((j, s) ∷ d) (m, h) = elim (Bool-cases (bytes_eq j k)) [
      | inl hit ↦ rw hit (ap some (swap-rescaled s ss u m))
      | inr miss ↦ rw miss (get_name-swap k d h)
    ]

    -- An empty table of rows to rescale: no row of the registry needs it.
    none_needed :
        (s : ParameterSpec F) → Mem s ss → length (rescaled ar reg scale ss) ≡ 0 → rescale s ≡ s
    unfolding get_id or_else
    none_needed s m empty = sym (swap-rescaled s ss u m) ∙ go (rescaled ar reg scale ss) empty
      where
        go :
            (d : List (ℕ × ParameterSpec F))
            → length d ≡ 0
            → or_else (get_id s.parameter_id d) s ≡ s
        go [] e = refl
        go (x ∷ d) e = absurd (omega arith)

  map_row_same :
      (ss : List (ParameterSpec F)) (o : Option (ParameterSpec F))
      → UniqueIds ss
      → ((s : ParameterSpec F) → o ≡ some s → Mem s ss)
      → length (rescaled ar reg scale ss) ≡ 0
      → o ≡ map_row o
  map_row_same ss none u h empty = refl
  map_row_same ss (some s) u h empty = ap some (sym (none_needed ss u s (h s refl) empty))

-- What a look-up finds is in the registry.
found_id :
    {F : Type 0} (ss : List (ParameterSpec F)) (k : ℕ) (d : List (ℕ × ParameterSpec F))
    → All (λ e. (e.0 ≡ e.1.parameter_id) × Mem e.1 ss) d
    → (s : ParameterSpec F) → get_id k d ≡ some s
    → Mem s ss
unfolding get_id
found_id ss k [] h s e = absurd cc
found_id ss k ((j, t) ∷ d) (m, h) s e = elim (Bool-cases (j == k)) [
  | inl hit ↦ let same : t ≡ s = cc (rw hit at e) in subst (λ x. Mem x ss) same m.1
  | inr miss ↦ found_id ss k d h s (rw miss at e)
]

found_name :
    {F : Type 0} (ss : List (ParameterSpec F)) (k : Name) (d : List (Name × ParameterSpec F))
    → All (λ e. Mem e.1 ss) d
    → (s : ParameterSpec F) → get_name k d ≡ some s
    → Mem s ss
unfolding get_name
found_name ss k [] h s e = absurd cc
found_name ss k ((j, t) ∷ d) (m, h) s e = elim (Bool-cases (bytes_eq j k)) [
  | inl hit ↦ let same : t ≡ s = cc (rw hit at e) in subst (λ x. Mem x ss) same m
  | inr miss ↦ found_name ss k d h s (rw miss at e)
]

abbrev pub map_result : {A B : Type 0} → (A → B) → Result A → Result B
map_result f (ok a) = ok (f a)
map_result f (err e) = err e
map_result f stuck = stuck

module _ {F : Type 0} (lower : Name → Name) (ar : Arith F) (r : ParameterRegistry F)
    (reg n : ℕ) where
  abbrev scale_of : F
  scale_of = ar.ten_to_minus n

  abbrev copied : ParameterRegistry F
  copied =
      let table = rescaled ar reg scale_of r.specs in
      record {
        specs = map (swap ar table) r.specs;
        by_id = swap_ids ar table r.by_id;
        by_name = swap_names ar table r.by_name;
      }

  abbrev result_of : Option (ParameterSpec F) → Result (ParameterSpec F)
  result_of o = elim o [ none ↦ err validation_error | some spec ↦ ok spec ]

  result_of_row :
      (o o' : Option (ParameterSpec F))
      → o' ≡ map_row ar reg scale_of o
      → result_of o' ≡ map_result (rescale ar reg scale_of) (result_of o)
  result_of_row none o' e = rw e refl
  result_of_row (some s) o' e = rw e refl

  -- On a registry with unique identifiers, the copy resolves exactly the identifiers and the names that
  -- the registry resolves, to the same rows but for the scale of those whose decimal places are those
  -- of `reg`, which is `10 ** -n`.
  pub with_decimal_places-resolve :
      IsRegistry r
      → (r' : ParameterRegistry F) × (with_decimal_places ar r reg (pos n) ≡ ok r')
        × ((i : ℕ)
            → resolve_id lower r' i ≡ map_result (rescale ar reg scale_of) (resolve_id lower r i))
        × ((k : Name)
            → resolve_name lower r' k
              ≡ map_result (rescale ar reg scale_of) (resolve_name lower r k))
  unfolding with_decimal_places resolve_id resolve_name
  with_decimal_places-resolve h =
      elim (Bool-cases (length (rescaled ar reg scale_of r.specs) == 0)) [
        | inl empty ↦ (
          r,
          rw empty refl,
          (λ i. result_of_row (get_id i r.by_id) (get_id i r.by_id) (
              map_row_same ar reg scale_of r.specs (get_id i r.by_id) h.unique
                (found_id r.specs i r.by_id h.ids) (ground arith))),
          (λ k. result_of_row (get_name (lower k) r.by_name) (get_name (lower k) r.by_name) (
              map_row_same ar reg scale_of r.specs (get_name (lower k) r.by_name) h.unique
                (found_name r.specs (lower k) r.by_name h.names) (ground arith))),
        )
        | inr some_row ↦ (
          copied,
          rw some_row refl,
          (λ i.
              result_of_row (get_id i r.by_id) _
                (get_id-swap ar reg scale_of r.specs h.unique i r.by_id h.ids)),
          (λ k.
              result_of_row (get_name (lower k) r.by_name) _
                (get_name-swap ar reg scale_of r.specs h.unique (lower k) r.by_name h.names)),
        )
      ]
