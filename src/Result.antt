-- ===== src/Result.antt =====
-- What a call does: it returns, it raises, or (`stuck`, no outcome of the program) the fuel that a
-- loop is given has run out.
use watlowlib.Base.{◌≡◌, refl, Bool, true, false}
use watlowlib.Errors.{Error}

pub data Result {ℓ} (A : Type ℓ) : Type ℓ where
  ok : A → Result A
  err : Error → Result A
  stuck : Result A

-- `if not b: raise e`
abbrev pub guard : Bool → Error → Result (Unit {0})
guard false raised = err raised
guard true raised = ok tt

module _ {ℓ κ} {A : Type ℓ} {B : Type κ} where
  infixl 5 ◌>>=◌
  abbrev pub ◌>>=◌ : Result A → (A → Result B) → Result B
  stuck >>= next = stuck
  err raised >>= next = err raised
  ok value >>= next = next value

  pub >>=-eq-ok :
      (call : Result A) (next : A → Result B) {final : B}
      → (call >>= next) ≡ ok final
      → (value : A) × (call ≡ ok value) × (next value ≡ ok final)
  >>=-eq-ok stuck next h = cc
  >>=-eq-ok (err raised) next h = cc
  >>=-eq-ok (ok value) next h = (value, refl, h)

infixl 5 ◌>>◌
abbrev pub ◌>>◌ {κ} : {B : Type κ} → Result (Unit {0}) → Result B → Result B
first >> second = first >>= λ _. second
