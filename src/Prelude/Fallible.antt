-- ===== src/Prelude/Fallible.antt =====
-- Fallible code, and database transactions. A transaction that raises leaves nothing behind: the
-- caller still has the state from before it (`transaction.atomic`).
use mathlib.Core.Path.{◌≡◌, refl}
use mathlib.Core.Logic.{◌⊎◌, inl, inr}
use mathlib.Core.Bool.{Bool, true, false}
use mathlib.Core.Option.{Option, none, some}

pub data Result {ℓ κ} (E : Type κ) (A : Type ℓ) : Type (ℓ ⊔ κ) where
  ok : A → Result E A
  err : E → Result E A

module _ {ℓ κ} {E : Type κ} {A : Type ℓ} where
  abbrev pub or_raise : E → Option A → Result E A
  or_raise e none = err e
  or_raise e (some a) = ok a

  pub Result-cases : (r : Result E A) → ((a : A) × (r ≡ ok a)) ⊎ ((e : E) × (r ≡ err e))
  Result-cases (ok a) = inl (a, refl)
  Result-cases (err e) = inr (e, refl)

abbrev pub raise_if {κ} : {E : Type κ} → Bool → E → Result E (Unit {0})
raise_if true e = err e
raise_if false e = ok tt

module _ {ℓ κ μ} {E : Type μ} {B : Type κ} where
  infixl 5 ◌>>=◌ ◌>>◌
  abbrev pub ◌>>=◌ : {A : Type ℓ} (attempt : Result E A) (next : A → Result E B) → Result E B
  err failure >>= next = err failure
  ok value >>= next = next value

  abbrev pub ◌>>◌ : (check : Result E (Unit {ℓ})) (next : Result E B) → Result E B
  check >> next = check >>= (λ passed. next)

  -- What succeeds after a bind succeeded before it.
  pub >>=-eq-ok :
      {A : Type ℓ} (attempt : Result E A) (next : A → Result E B) {answer : B}
      → (attempt >>= next) ≡ ok answer
      → (value : A) × (attempt ≡ ok value) × (next value ≡ ok answer)
  >>=-eq-ok (err failure) next succeeded = cc
  >>=-eq-ok (ok value) next succeeded = (value, refl, succeeded)

abbrev pub succeeds {ℓ κ} : {E : Type κ} {A : Type ℓ} → Result E A → Bool
succeeds (ok a) = true
succeeds (err e) = false
