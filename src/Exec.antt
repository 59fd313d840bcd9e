-- ===== src/Exec.antt =====
-- Code with effects: state passing with exceptions. What was written before a raise stays written,
-- so the state comes back beside the error too. An `await` is an ordinary step.
use watlowlib.Base.{Bool, if◌then◌else◌}
use watlowlib.Errors.{Error}
use watlowlib.Result.{Result, ok, err, stuck}

abbrev pub Exec : Type 0 → Type 0 → Type 0
Exec S A = S → Result A × S

-- `except C: raise e` for the classes that `test` accepts.
abbrev pub rethrow : {A : Type 0} → (Error → Bool) → Error → Result A → Result A
rethrow test e (ok a) = ok a
rethrow test e (err x) = if test x then err e else err x
rethrow test e stuck = stuck

module _ {S A : Type 0} where
  abbrev pub pure : A → Exec S A
  pure a s = (ok a, s)

  abbrev pub raise : Error → Exec S A
  raise e s = (err e, s)

  abbrev pub lift : Result A → Exec S A
  lift r s = (r, s)

  abbrev pub except : (Error → Bool) → Error → Exec S A → Exec S A
  except test e m s = let (r, s') = m s in (rethrow test e r, s')

module _ {S A B : Type 0} where
  -- What follows a call that has ended with this result in this state.
  abbrev pub continue : Result A → (A → Exec S B) → Exec S B
  continue stuck next after = (stuck, after)
  continue (err raised) next after = (err raised, after)
  continue (ok value) next after = next value after

  infixl 5 ◌>>=◌
  abbrev pub ◌>>=◌ : Exec S A → (A → Exec S B) → Exec S B
  ◌>>=◌ call next before = let (result, after) = call before in continue result next after

  infixl 5 ◌>>◌
  abbrev pub ◌>>◌ : Exec S A → Exec S B → Exec S B
  first >> second = first >>= λ _. second
