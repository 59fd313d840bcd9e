-- ===== src/Registry/Index/Build.antt =====
-- `ParameterRegistry.__init__`: what a registry that was built resolves.
use watlowlib.Base.{
  ℕ, ◌≡◌, ◌≢◌, inl, inr, refl, sym, ap, ◌∙◌, subst, arith, List, [], ◌∷◌, map, Option, none, some,
  bytes_eq, bytes_eq→eq, All, Bool-cases, Option-cases,
}
use watlowlib.Errors.{validation_error}
use watlowlib.Result.{ok, err}
use watlowlib.Registry.Spec.{ParameterSpec, Name}
use watlowlib.Registry.Index.{
  get_id, get_name, set_default, or_else, override_of, rebind, owners, add_aliases, is_claimed,
  index_name, index_names, index_ids, build, resolve_id, resolve_name,
}
use watlowlib.Registry.Index.Tables.{
  Mem, All-map, All-imp, All-members, Mem-map, UniqueIds, IsRegistry,
}
use watlowlib.Registry.Index.Keys.{present_id, index_names_owner}

module _ {F : Type 0} (aliases : List (Name × Name)) (overrides : List (ℕ × Name)) where
  -- Rebinding a row keeps its identifier.
  rebind_id : (s : ParameterSpec F) → (rebind aliases overrides s).parameter_id ≡ s.parameter_id
  unfolding rebind
  rebind_id s = ground arith

  rebind-UniqueIds :
      (ss : List (ParameterSpec F)) → UniqueIds ss → UniqueIds (map (rebind aliases overrides) ss)
  rebind-UniqueIds [] u = tt
  rebind-UniqueIds (s ∷ ss) (apart, u) = (
    All-map (λ t. t.parameter_id ≢ (rebind aliases overrides s).parameter_id)
        (rebind aliases overrides) ss
        (All-imp (λ t ne e. ne (sym (rebind_id t) ∙ (e ∙ rebind_id s))) ss apart),
    rebind-UniqueIds ss u,
  )

module _ {F : Type 0} (P : ParameterSpec F → Type 0) where
  abbrev IdEntry : ℕ × ParameterSpec F → Type 0
  IdEntry e = (e.0 ≡ e.1.parameter_id) × P e.1

  index_ids-All :
      (ss : List (ParameterSpec F)) (d : List (ℕ × ParameterSpec F))
      → All P ss
      → All IdEntry d
      → All IdEntry (index_ids ss d)
  unfolding index_ids
  index_ids-All [] d h k = k
  index_ids-All (s ∷ ss) d h k = index_ids-All ss ((s.parameter_id, s) ∷ d) h.1 ((refl, h.0), k)

  abbrev NameEntry : Name × ParameterSpec F → Type 0
  NameEntry e = P e.1

  module _ (lower : Name → Name) where
    set_default-All :
        (k : Name) (s : ParameterSpec F) (d : List (Name × ParameterSpec F))
        → P s
        → All NameEntry d
        → All NameEntry (set_default k s d)
    unfolding set_default
    set_default-All k s d p h = elim (Option-cases (get_name k d)) [
      | inl e ↦
          let fresh : set_default k s d ≡ (k, s) ∷ d = rw (e, set_default) refl in
          subst (All NameEntry) (sym fresh) (p, h)
      | inr (v, e) ↦
          let kept : set_default k s d ≡ d = rw (e, set_default) refl in
          subst (All NameEntry) (sym kept) h
    ]

    add_aliases-All :
        (names : List Name) (s : ParameterSpec F) (d : List (Name × ParameterSpec F))
        → P s
        → All NameEntry d
        → All NameEntry (add_aliases lower names s d)
    unfolding add_aliases
    add_aliases-All [] s d p h = h
    add_aliases-All (a ∷ more) s d p h =
        add_aliases-All more s (set_default (lower a) s d) p (set_default-All (lower a) s d p h)

    index_names-All :
        (owned : List (Name × ℕ)) (ss : List (ParameterSpec F)) (d : List (Name × ParameterSpec F))
        → All P ss
        → All NameEntry d
        → All NameEntry (index_names lower owned ss d)
    unfolding index_names index_name
    index_names-All owned [] d h k = k
    index_names-All owned (s ∷ ss) d h k = elim (Bool-cases (is_claimed lower owned s)) [
      | inl e ↦ rw e (index_names-All owned ss d h.1 k)
      | inr e ↦ rw e (
          index_names-All owned ss (add_aliases lower s.aliases s ((lower s.name, s) ∷ d)) h.1
            (add_aliases-All s.aliases s ((lower s.name, s) ∷ d) h.0 (h.0, k)))
    ]

-- A registry built from rows with unique identifiers is well formed.
pub build-IsRegistry :
    {F : Type 0} (lower : Name → Name) (specs : List (ParameterSpec F))
    (aliases : List (Name × Name)) (overrides : List (ℕ × Name))
    → UniqueIds specs
    → IsRegistry (build lower specs aliases overrides)
unfolding build
build-IsRegistry lower specs aliases overrides u =
    let rows = map (rebind aliases overrides) specs in
    record {
      unique = rebind-UniqueIds aliases overrides specs u;
      ids = index_ids-All (λ s. Mem s rows) rows [] (All-members rows) tt;
      names =
          index_names-All (λ s. Mem s rows) lower (owners lower overrides) rows []
            (All-members rows) tt;
    }

is_found :
    {F : Type 0} {o : Option (ParameterSpec F)} {s : ParameterSpec F}
    → o ≡ some s
    → elim o [ none ↦ err validation_error | some spec ↦ ok spec ] ≡ ok s
is_found e = rw e refl

module _ {F : Type 0} (lower : Name → Name) (specs : List (ParameterSpec F))
    (aliases : List (Name × Name)) (overrides : List (ℕ × Name)) where
  -- With unique identifiers, every row resolves by its identifier, to the row with its final name.
  build-resolve_id :
      (s : ParameterSpec F)
      → UniqueIds specs
      → Mem s specs
      → resolve_id lower (build lower specs aliases overrides) s.parameter_id
        ≡ ok (rebind aliases overrides s)
  unfolding build resolve_id
  build-resolve_id s u m =
      let row = rebind aliases overrides s in
      let found : get_id s.parameter_id (index_ids (map (rebind aliases overrides) specs) [])
          ≡ some row =
        ap (λ i. get_id i (index_ids (map (rebind aliases overrides) specs) []))
          (sym (rebind_id aliases overrides s))
        ∙ present_id row (map (rebind aliases overrides) specs) []
            (rebind-UniqueIds aliases overrides specs u)
            (Mem-map (rebind aliases overrides) s specs m) in
      is_found found

  -- The override of a row gives its name.
  rebind_name :
      (s : ParameterSpec F) (c : ℕ) (cs : Name)
      → get_id s.parameter_id overrides ≡ some (c ∷ cs)
      → (rebind aliases overrides s).name ≡ c ∷ cs
  unfolding rebind override_of or_else
  rebind_name s c cs e = rw e (elim (Bool-cases (bytes_eq (c ∷ cs) s.name)) [
    | inl same ↦ ground (arith, same, bytes_eq→eq (c ∷ cs) s.name)
    | inr other ↦ ground (arith, other)
  ])

  -- With unique identifiers, a name of the override table that is not empty, and that no later override
  -- has in the same lower case, resolves to the row that the override names, in any spelling with the
  -- same lower case, whichever other rows have that name or that alias and wherever they stand.
  pub build-resolve_name :
      (s : ParameterSpec F) (c : ℕ) (cs key : Name)
      → UniqueIds specs
      → Mem s specs
      → get_id s.parameter_id overrides ≡ some (c ∷ cs)
      → get_name (lower (c ∷ cs)) (owners lower overrides) ≡ some s.parameter_id
      → lower key ≡ lower (c ∷ cs)
      → resolve_name lower (build lower specs aliases overrides) key
        ≡ ok (rebind aliases overrides s)
  unfolding build resolve_name
  build-resolve_name s c cs key u m o owned spelling =
      let row = rebind aliases overrides s in
      let rows = map (rebind aliases overrides) specs in
      let named : row.name ≡ c ∷ cs = rebind_name s c cs o in
      let found : get_name (lower row.name) (index_names lower (owners lower overrides) rows [])
          ≡ some row =
        index_names_owner lower (owners lower overrides) row rows []
          (ap (λ x. get_name (lower x) (owners lower overrides)) named
            ∙ (owned ∙ ap some (sym (rebind_id aliases overrides s))))
          (rebind-UniqueIds aliases overrides specs u)
          (Mem-map (rebind aliases overrides) s specs m) in
      is_found (
        ap (λ x. get_name x (index_names lower (owners lower overrides) rows []))
          (spelling ∙ sym (ap lower named))
        ∙ found)
