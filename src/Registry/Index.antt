-- ===== src/Registry/Index.antt =====
-- src/watlowlib/registry/parameters.py: `ParameterRegistry`. A dict is a list of its entries, the newest
-- first; a key is looked up from the front. `str.lower` is the parameter `lower`.
use watlowlib.Base.{
  ℕ, ◌≡◌, List, [], ◌∷◌, ◌++◌, map, Bool, true, false, ◌&&◌, ◌||◌, not, Option, none, some,
  bytes_eq, length, ltb, ◌==◌, if◌then◌else◌,
}
use watlowlib.Base.Int.{ℤ, pos, negsuc}
use watlowlib.Errors.{validation_error}
use watlowlib.Result.{Result, ok, err}
use watlowlib.Registry.Spec.{ParameterSpec, Name, Arith}
pub mod Tables
pub mod Keys
pub mod Rescale
pub mod Build

module _ {V : Type 0} where
  unfoldable pub get_id : ℕ → List (ℕ × V) → Option V
  get_id k [] = none
  get_id k ((j, v) ∷ rest) = if j == k then some v else get_id k rest

  unfoldable pub get_name : Name → List (Name × V) → Option V
  get_name k [] = none
  get_name k ((j, v) ∷ rest) = if bytes_eq j k then some v else get_name k rest

  -- `d.setdefault(k, v)`
  unfoldable pub set_default : Name → V → List (Name × V) → List (Name × V)
  set_default k v d = elim (get_name k d) [ none ↦ (k, v) ∷ d | some old ↦ d ]

  unfoldable pub or_else : Option V → V → V
  or_else none d = d
  or_else (some v) d = v

pub record ParameterRegistry (F : Type 0) : Type 0 where
  pub specs : List (ParameterSpec F)
  pub by_id : List (ℕ × ParameterSpec F)
  pub by_name : List (Name × ParameterSpec F)

-- The aliases of the table whose target is `name`.
unfoldable pub aliases_of : Name → List (Name × Name) → List Name
aliases_of name [] = []
aliases_of name ((alias, target) ∷ rest) =
    let more = aliases_of name rest in if bytes_eq target name then alias ∷ more else more

module _ {F : Type 0} (aliases : List (Name × Name)) (overrides : List (ℕ × Name)) where
  -- The name of a row and its aliases; a row without either change is kept as it is. The empty override
  -- counts as absent.
  unfoldable pub override_of : ParameterSpec F → Option Name
  unfolding get_id
  override_of spec = elim (get_id spec.parameter_id overrides) [
    | none ↦ none
    | some name ↦ if length name == 0 then none else some name
  ]

  unfoldable pub all_aliases : Name → ParameterSpec F → List Name
  unfolding aliases_of override_of
  all_aliases name spec = aliases_of name aliases ++ elim (override_of spec) [
    | none ↦ []
    | some o ↦ if bytes_eq o spec.name then [] else spec.name ∷ []
  ]

  unfoldable pub rebind : ParameterSpec F → ParameterSpec F
  unfolding all_aliases override_of or_else
  rebind spec =
      let name = or_else (override_of spec) spec.name in
      let found = all_aliases name spec in
      if bytes_eq name spec.name && length found == 0
      then spec
      else record spec { name = name; aliases = found }

-- `override_owner`
unfoldable pub owners : (Name → Name) → List (ℕ × Name) → List (Name × ℕ)
owners lower [] = []
owners lower ((i, name) ∷ rest) = owners lower rest ++ ((lower name, i) ∷ [])

module _ {F : Type 0} (lower : Name → Name) where
  unfoldable pub add_aliases :
      List Name → ParameterSpec F → List (Name × ParameterSpec F) → List (Name × ParameterSpec F)
  unfolding set_default
  add_aliases [] spec d = d
  add_aliases (a ∷ more) spec d = add_aliases more spec (set_default (lower a) spec d)

  -- Is the name of the row claimed by an override for another row?
  unfoldable pub is_claimed : List (Name × ℕ) → ParameterSpec F → Bool
  is_claimed owned spec = elim (get_name (lower spec.name) owned) [
    | none ↦ false
    | some i ↦ not (i == spec.parameter_id)
  ]

  -- One row of the loop that fills the tables.
  unfoldable pub index_name :
      List (Name × ℕ)
      → ParameterSpec F
      → List (Name × ParameterSpec F)
      → List (Name × ParameterSpec F)
  unfolding add_aliases is_claimed
  index_name owned spec d =
      if is_claimed owned spec
      then d
      else add_aliases spec.aliases spec ((lower spec.name, spec) ∷ d)

  unfoldable pub index_names :
      List (Name × ℕ)
      → List (ParameterSpec F)
      → List (Name × ParameterSpec F)
      → List (Name × ParameterSpec F)
  unfolding index_name
  index_names owned [] d = d
  index_names owned (spec ∷ more) d = index_names owned more (index_name owned spec d)

unfoldable pub index_ids :
    {F : Type 0} → List (ParameterSpec F) → List (ℕ × ParameterSpec F) → List (ℕ × ParameterSpec F)
index_ids [] d = d
index_ids (spec ∷ more) d = index_ids more ((spec.parameter_id, spec) ∷ d)

module _ {F : Type 0} (lower : Name → Name) where
  -- `ParameterRegistry.__init__`
  unfoldable pub build :
      List (ParameterSpec F) → List (Name × Name) → List (ℕ × Name) → ParameterRegistry F
  unfolding index_ids index_names owners rebind
  build specs aliases overrides =
      let rebound = map (rebind aliases overrides) specs in
      record {
        specs = rebound;
        by_id = index_ids rebound [];
        by_name = index_names lower (owners lower overrides) rebound [];
      }

  -- `resolve` of an identifier and of a name.
  unfoldable pub resolve_id : ParameterRegistry F → ℕ → Result (ParameterSpec F)
  unfolding get_id
  resolve_id r i = elim (get_id i r.by_id) [ none ↦ err validation_error | some spec ↦ ok spec ]

  unfoldable pub resolve_name : ParameterRegistry F → Name → Result (ParameterSpec F)
  unfolding get_name
  resolve_name r name = elim (get_name (lower name) r.by_name) [
    | none ↦ err validation_error
    | some spec ↦ ok spec
  ]

-- `name_or_id: str | int`
pub data Target : Type 0 where
  by_name : Name → Target
  by_id : ℕ → Target

unfoldable pub resolve :
    {F : Type 0} → (Name → Name) → ParameterRegistry F → Target → Result (ParameterSpec F)
resolve lower r (by_name n) = resolve_name lower r n
resolve lower r (by_id i) = resolve_id lower r i

module _ {F : Type 0} (ar : Arith F) where
  unfoldable pub is_bound : ℕ → ParameterSpec F → Bool
  is_bound reg spec = elim spec.decimal_register [ none ↦ false | some j ↦ j == reg ]

  -- The dict `rescaled`; a later row with the same identifier replaces an earlier one.
  unfoldable pub rescaled : ℕ → F → List (ParameterSpec F) → List (ℕ × ParameterSpec F)
  unfolding is_bound
  rescaled reg scale [] = []
  rescaled reg scale (spec ∷ more) =
      let rest = rescaled reg scale more in
      if is_bound reg spec && not (ar.eq spec.scale scale)
      then rest ++ ((spec.parameter_id, record spec { scale = scale }) ∷ [])
      else rest

  -- `rescaled.get(spec.parameter_id, spec)`
  unfoldable pub swap : List (ℕ × ParameterSpec F) → ParameterSpec F → ParameterSpec F
  unfolding get_id or_else
  swap table spec = or_else (get_id spec.parameter_id table) spec

  -- On a table keyed by identifiers the key is what is looked up.
  unfoldable pub swap_ids :
      List (ℕ × ParameterSpec F) → List (ℕ × ParameterSpec F) → List (ℕ × ParameterSpec F)
  unfolding get_id or_else
  swap_ids table [] = []
  swap_ids table ((i, spec) ∷ rest) = (i, or_else (get_id i table) spec) ∷ swap_ids table rest

  unfoldable pub swap_names :
      List (ℕ × ParameterSpec F) → List (Name × ParameterSpec F) → List (Name × ParameterSpec F)
  unfolding swap
  swap_names table [] = []
  swap_names table ((k, spec) ∷ rest) = (k, swap table spec) ∷ swap_names table rest

  unfoldable pub with_decimal_places : ParameterRegistry F → ℕ → ℤ → Result (ParameterRegistry F)
  unfolding rescaled swap swap_ids swap_names
  with_decimal_places r reg (negsuc n) = err validation_error
  with_decimal_places r reg (pos n) =
      let table = rescaled reg (ar.ten_to_minus n) r.specs in
      if length table == 0
      then ok r
      else ok (record {
        specs = map (swap table) r.specs;
        by_id = swap_ids table r.by_id;
        by_name = swap_names table r.by_name;
      })
