-- ===== src/Registry/Loader/Unique.antt =====
-- What `load_parameters` returns, and the registry that is built from it.
use watlowlib.Base.{
  ℕ, ◌≡◌, ◌≢◌, inl, inr, refl, sym, ap, subst, List, [], ◌∷◌, ◌++◌, true, Option, none, some, ◌==◌,
  ==_refl, All, All-append, Bool-cases,
}
use watlowlib.Base.Text.{codes}
use watlowlib.Result.{Result, ok, err, stuck, ◌>>=◌}
use watlowlib.StdBus.Value.{DataType}
use watlowlib.Registry.Spec.{Name, RwesFlag, safety_from_rwes, ParameterSpec}
use watlowlib.Registry.Index.{build}
use watlowlib.Registry.Index.Tables.{All-imp, UniqueIds, IsRegistry}
use watlowlib.Registry.Index.Build.{build-IsRegistry}
use watlowlib.Registry.Rows.{Row, Conversions, item, to_int, natural, coerce_int, int_or_one, get}
use watlowlib.Registry.Loader.{
  register_count_for, data_type_of, rwes_of, spec_of, spec_if, typed_spec, unit_kind_of, name_of,
  scale_of, decimal_register_of, build_spec, seen, keep, load_from, load_parameters,
}

-- What every loaded row has: the safety tier of its flag, the register count of its data type, no word
-- order and no aliases.
pub record IsLoaded {F : Type 0} (s : ParameterSpec F) : Type 0 where
  pub safe : s.safety ≡ safety_from_rwes s.rwes
  pub sized : s.register_count ≡ register_count_for s.data_type
  pub unordered : s.word_order ≡ none
  pub bare : s.aliases ≡ []

UniqueIds-append :
    {F : Type 0} (ss : List (ParameterSpec F)) (s : ParameterSpec F)
    → UniqueIds ss
    → All (λ t. t.parameter_id ≢ s.parameter_id) ss
    → UniqueIds (ss ++ (s ∷ []))
UniqueIds-append [] s u apart = (tt, tt)
UniqueIds-append (t ∷ ss) s (fresh, u) (differs, apart) = (
  All-append (λ x. x.parameter_id ≢ t.parameter_id) ss (s ∷ []) fresh ((λ e. differs (sym e)), tt),
  UniqueIds-append ss s u apart,
)

-- The rows so far: their identifiers are unique and have been seen.
record Holds {F : Type 0} (out : List (ParameterSpec F)) (seen_ids : List ℕ) : Type 0 where
  unique : UniqueIds out
  noted : All (λ s. seen s.parameter_id seen_ids ≡ true) out
  loaded : All IsLoaded out

seen_more : (i j : ℕ) (ids : List ℕ) → seen i ids ≡ true → seen i (j ∷ ids) ≡ true
seen_more i j ids h = elim (Bool-cases (i == j)) [ inl e ↦ rw e refl | inr n ↦ rw n h ]

-- What a call returns, if it returns, has the property.
abbrev Yields : {A : Type 0} → (A → Type 0) → Result A → Type 0
Yields P (ok a) = P a
Yields P (err e) = Unit {0}
Yields P stuck = Unit {0}

yields :
    {A B : Type 0} (P : B → Type 0) (r : Result A) (next : A → Result B)
    → ((a : A) → Yields P (next a))
    → Yields P (r >>= next)
yields P (ok a) next h = h a
yields P (err e) next h = tt
yields P stuck next h = tt

module _ {F : Type 0} where
  keep-Holds :
      (out : List (ParameterSpec F)) (ids : List ℕ) (s : ParameterSpec F)
      → Holds out ids
      → IsLoaded s
      → Holds (keep out ids (some s)).0 (keep out ids (some s)).1
  unfolding keep
  keep-Holds out ids s h l = elim (Bool-cases (seen s.parameter_id ids)) [
    | inl again ↦ rw again h
    | inr fresh ↦ rw fresh (record {
      unique =
          UniqueIds-append out s h.unique
            (All-imp (λ t note e. cc (fresh, note, ap (λ i. seen i ids) e)) out h.noted);
      noted =
          All-append (λ t. seen t.parameter_id (s.parameter_id ∷ ids) ≡ true) out (s ∷ [])
            (All-imp (λ t note. seen_more t.parameter_id s.parameter_id ids note) out h.noted)
            (rw (==_refl s.parameter_id) (refl, tt));
      loaded = All-append IsLoaded out (s ∷ []) h.loaded (l, tt);
    })
  ]

module _ {F : Type 0} (cv : Conversions F) where
  spec_of-IsLoaded :
      (row : Row F) (d : DataType) (f : RwesFlag) → Yields IsLoaded (spec_of cv row d f)
  unfolding spec_of
  spec_of-IsLoaded row d f =
      yields IsLoaded (item row (codes "parameter_id") >>= to_int cv >>= natural) _ (λ id.
        yields IsLoaded (unit_kind_of (get row (codes "unit_kind"))) _ (λ unit.
          yields IsLoaded (coerce_int cv (get row (codes "class_id")) >>= natural) _ (λ cls.
            yields IsLoaded (coerce_int cv (get row (codes "member_id")) >>= natural) _ (λ member.
              yields IsLoaded (int_or_one cv (get row (codes "instance_id"))) _ (λ start.
                yields IsLoaded (int_or_one cv (get row (codes "max_instance"))) _ (λ last.
                  yields IsLoaded (coerce_int cv (get row (codes "relative_addr"))) _ (λ relative.
                    yields IsLoaded (coerce_int cv (get row (codes "absolute_addr"))) _ (λ absolute.
                      yields IsLoaded (name_of cv row) _ (λ name.
                        yields IsLoaded (scale_of cv (get row (codes "scale"))) _ (λ scale.
                          yields IsLoaded
                            (decimal_register_of cv (get row (codes "decimal_register"))) _
                            (λ decimal. record {
                              safe = refl;
                              sized = refl;
                              unordered = refl;
                              bare = refl;
                            })))))))))))

  abbrev Loads : Option (ParameterSpec F) → Type 0
  Loads none = Unit {0}
  Loads (some s) = IsLoaded s

  spec_if-Loads :
      (row : Row F) (d : DataType) (f : Option RwesFlag) → Yields Loads (spec_if cv row d f)
  unfolding spec_if
  spec_if-Loads row d none = tt
  spec_if-Loads row d (some f) = go (spec_of cv row d f) (spec_of-IsLoaded row d f)
    where
      go :
          (r : Result (ParameterSpec F)) → Yields IsLoaded r → Yields Loads (r >>= λ s. ok (some s))
      go (ok s) h = h
      go (err x) h = tt
      go stuck h = tt

  typed_spec-Loads : (row : Row F) (d : Option DataType) → Yields Loads (typed_spec cv row d)
  unfolding typed_spec
  typed_spec-Loads row none = tt
  typed_spec-Loads row (some d) =
      yields Loads (rwes_of cv (get row (codes "rwes"))) (spec_if cv row d) (spec_if-Loads row d)

  load_from-Holds :
      (rows : List (Row F)) (out : List (ParameterSpec F)) (ids : List ℕ)
      → Holds out ids
      → Yields (λ specs. UniqueIds specs × All IsLoaded specs) (load_from cv rows out ids)
  unfolding load_from build_spec keep
  load_from-Holds [] out ids h = (h.unique, h.loaded)
  load_from-Holds (row ∷ rows) out ids h =
      go (typed_spec cv row (data_type_of (get row (codes "data_type"))))
        (typed_spec-Loads row (data_type_of (get row (codes "data_type")))) (load_from-Holds rows)
    where
      go :
          (r : Result (Option (ParameterSpec F)))
          → Yields Loads r
          → ((out' : List (ParameterSpec F)) (ids' : List ℕ)
              → Holds out' ids'
              → Yields
                  (λ specs. UniqueIds specs × All IsLoaded specs)
                  (load_from cv rows out' ids'))
          → Yields
              (λ specs. UniqueIds specs × All IsLoaded specs)
              (r >>= λ spec. load_from cv rows (keep out ids spec).0 (keep out ids spec).1)
      go (ok none) l next = next out ids h
      go (ok (some s)) l next =
          next (keep out ids (some s)).0 (keep out ids (some s)).1 (keep-Holds out ids s h l)
      go (err e) l next = tt
      go stuck l next = tt

  -- Whatever rows the file holds: where the loader returns, the identifiers of what it returns are unique,
  -- so that the registry that is built from it is well formed; and each row has the safety tier of its
  -- flag and the register count of its data type.
  pub load_parameters-IsRegistry :
      (rows : List (Row F)) (specs : List (ParameterSpec F)) (lower : Name → Name)
      (aliases : List (Name × Name)) (overrides : List (ℕ × Name))
      → load_parameters cv rows ≡ ok specs
      → IsRegistry (build lower specs aliases overrides) × All IsLoaded specs
  unfolding load_parameters
  load_parameters-IsRegistry rows specs lower aliases overrides e =
      let (unique, loaded) =
        subst (Yields (λ specs. UniqueIds specs × All IsLoaded specs)) e
          (load_from-Holds rows [] [] (record { unique = tt; noted = tt; loaded = tt })) in
      (build-IsRegistry lower specs aliases overrides unique, loaded)
