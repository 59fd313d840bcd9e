-- ===== src/Registry/Index/Keys.antt =====
-- The tables that `ParameterRegistry.__init__` fills: which row a key leads to.
use watlowlib.Base.{
  ℕ, ◌≡◌, ◌≢◌, inl, inr, refl, sym, ap, ◌∙◌, subst, arith, List, [], ◌∷◌, true, false, some,
  bytes_eq, bytes_eq_refl, bytes_eq→eq, All, Bool-cases, Option-cases,
}
use watlowlib.Registry.Spec.{ParameterSpec, Name}
use watlowlib.Registry.Index.{
  get_id, get_name, set_default, add_aliases, is_claimed, index_name, index_names, index_ids,
}
use watlowlib.Registry.Index.Tables.{Mem, UniqueIds}

module _ {F : Type 0} where
  absent_id :
      (k : ℕ) (ss : List (ParameterSpec F)) (d : List (ℕ × ParameterSpec F))
      → All (λ t. t.parameter_id ≢ k) ss
      → get_id k (index_ids ss d) ≡ get_id k d
  unfolding index_ids get_id
  absent_id k [] d h = refl
  absent_id k (s ∷ ss) d h = absent_id k ss ((s.parameter_id, s) ∷ d) h.1 ∙ ground (arith, h.0)

  pub present_id :
      (s : ParameterSpec F) (ss : List (ParameterSpec F)) (d : List (ℕ × ParameterSpec F))
      → UniqueIds ss
      → Mem s ss
      → get_id s.parameter_id (index_ids ss d) ≡ some s
  unfolding index_ids get_id
  present_id s [] d u m = elim m [ ]
  present_id s (t ∷ ts) d u (inr m) = present_id s ts ((t.parameter_id, t) ∷ d) u.1 m
  present_id s (t ∷ ts) d u (inl e) =
      subst (λ x. get_id x.parameter_id (index_ids ts ((t.parameter_id, t) ∷ d)) ≡ some x) (sym e)
        (absent_id t.parameter_id ts ((t.parameter_id, t) ∷ d) u.0 ∙ ground arith)

  module _ (lower : Name → Name) where
    -- An entry that a table has survives the aliases of later rows.
    set_default_keeps :
        (k : Name) (v : ParameterSpec F) (j : Name) (s : ParameterSpec F)
        (d : List (Name × ParameterSpec F))
        → get_name k d ≡ some v
        → get_name k (set_default j s d) ≡ some v
    unfolding set_default get_name
    set_default_keeps k v j s d e = elim (Option-cases (get_name j d)) [
      | inr (w, f) ↦ rw (f, set_default) e
      | inl f ↦
          rw (f, set_default)
            (elim (Bool-cases (bytes_eq j k)) [
              | inl hit ↦ absurd (cc (f, e, ap (λ x. get_name x d) (bytes_eq→eq j k hit)))
              | inr miss ↦ rw miss e
            ])
    ]

    add_aliases_keeps :
        (k : Name) (v : ParameterSpec F) (names : List Name) (s : ParameterSpec F)
        (d : List (Name × ParameterSpec F))
        → get_name k d ≡ some v
        → get_name k (add_aliases lower names s d) ≡ some v
    unfolding add_aliases
    add_aliases_keeps k v [] s d e = e
    add_aliases_keeps k v (a ∷ more) s d e =
        add_aliases_keeps k v more s (set_default (lower a) s d)
          (set_default_keeps k v (lower a) s d e)

    claims :
        (owned : List (Name × ℕ)) (s : ParameterSpec F) (i : ℕ)
        → get_name (lower s.name) owned ≡ some i
        → s.parameter_id ≢ i
        → is_claimed lower owned s ≡ true
    unfolding is_claimed
    claims owned s i o ne = rw (o, is_claimed) (ground arith)

    owns :
        (owned : List (Name × ℕ)) (s : ParameterSpec F)
        → get_name (lower s.name) owned ≡ some s.parameter_id
        → is_claimed lower owned s ≡ false
    unfolding is_claimed
    owns owned s o = rw (o, is_claimed) (ground arith)

    -- A key that an override claims survives the rows of other identifiers.
    index_names_keeps :
        (owned : List (Name × ℕ)) (k : Name) (i : ℕ) (v : ParameterSpec F)
        (ss : List (ParameterSpec F)) (d : List (Name × ParameterSpec F))
        → get_name k owned ≡ some i
        → All (λ t. t.parameter_id ≢ i) ss
        → get_name k d ≡ some v
        → get_name k (index_names lower owned ss d) ≡ some v
    unfolding index_names index_name get_name
    index_names_keeps owned k i v [] d o h e = e
    index_names_keeps owned k i v (s ∷ ss) d o (ne, h) e =
        elim (Bool-cases (bytes_eq (lower s.name) k)) [
          | inl hit ↦
              let claimed : is_claimed lower owned s ≡ true =
                claims owned s i (ap (λ x. get_name x owned) (bytes_eq→eq (lower s.name) k hit) ∙ o)
                  ne in
              rw claimed (index_names_keeps owned k i v ss d o h e)
          | inr miss ↦ elim (Bool-cases (is_claimed lower owned s)) [
            | inl claimed ↦ rw claimed (index_names_keeps owned k i v ss d o h e)
            | inr free ↦ rw free (
                index_names_keeps owned k i v ss
                  (add_aliases lower s.aliases s ((lower s.name, s) ∷ d)) o h
                  (add_aliases_keeps k v s.aliases s ((lower s.name, s) ∷ d) (rw miss e)))
          ]
        ]

    -- The row of the override takes the key.
    pub index_names_owner :
        (owned : List (Name × ℕ)) (v : ParameterSpec F) (ss : List (ParameterSpec F))
        (d : List (Name × ParameterSpec F))
        → get_name (lower v.name) owned ≡ some v.parameter_id
        → UniqueIds ss
        → Mem v ss
        → get_name (lower v.name) (index_names lower owned ss d) ≡ some v
    unfolding index_names index_name get_name
    index_names_owner owned v [] d o u m = elim m [ ]
    index_names_owner owned v (s ∷ ss) d o u (inr m) =
        index_names_owner owned v ss (index_name lower owned s d) o u.1 m
    index_names_owner owned v (s ∷ ss) d o u (inl e) =
        subst (λ x. get_name (lower x.name) (index_names lower owned (s ∷ ss) d) ≡ some x) (sym e)
          (here (subst (λ x. get_name (lower x.name) owned ≡ some x.parameter_id) e o))
      where
        here :
            get_name (lower s.name) owned ≡ some s.parameter_id
            → get_name (lower s.name) (index_names lower owned (s ∷ ss) d) ≡ some s
        here o' = rw (owns owned s o') (
            index_names_keeps owned (lower s.name) s.parameter_id s ss
              (add_aliases lower s.aliases s ((lower s.name, s) ∷ d)) o' u.0
              (add_aliases_keeps (lower s.name) s s.aliases s ((lower s.name, s) ∷ d)
                (rw (bytes_eq_refl (lower s.name)) refl)))
