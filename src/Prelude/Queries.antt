-- ===== src/Prelude/Queries.antt =====
-- How the queries on rows meet updates, insertions and deletions.
use mathlib.Core.Path.{◌≡◌, refl, ap, ◌∙◌}
use mathlib.Core.Logic.{inl, inr}
use mathlib.Core.Bool.{Bool, true, false, not, ◌&&◌, ◌||◌}
use mathlib.Core.Option.{some}
use mathlib.Core.List.{List, [], ◌∷◌, ◌++◌, map}
use native.Mathlib.Omega.{arith}
use openfotos_platform.Prelude.Tests.{if◌then◌else◌, Bool-cases}
use openfotos_platform.Prelude.Lists.{any, keep, find, update, length}

module _ {ℓ} {A : Type ℓ} where
  -- An update that a query does not see moves what the query finds.
  pub find-update :
      (q p : A → Bool) (f : A → A)
      → ((x : A) → q (f x) ≡ q x)
      → (xs : List A) (x : A) → find q xs ≡ some x
      → find q (update p f xs) ≡ some (if p x then f x else x)
  unfolding find update
  find-update q p f h [] x e = ground arith
  find-update q p f h (y ∷ ys) x e = ground (arith, h y, find-update q p f h ys x)

  pub any-update :
      (q p : A → Bool) (f : A → A)
      → ((x : A) → q (f x) ≡ q x)
      → (xs : List A) → any q (update p f xs) ≡ any q xs
  unfolding any update
  any-update q p f h [] = refl
  any-update q p f h (y ∷ ys) = ground (arith, h y, any-update q p f h ys)

  pub any-append : (p : A → Bool) (xs ys : List A) → any p (xs ++ ys) ≡ (any p xs || any p ys)
  unfolding any
  any-append p [] ys = refl
  any-append p (x ∷ xs) ys = ground (arith, any-append p xs ys)

  -- What a query finds, and no deletion takes, is still there.
  pub any-keep :
      (p g : A → Bool) (xs : List A)
      → any p xs ≡ true
      → any (λ x. p x && g x) xs ≡ false
      → any p (keep (λ x. not (g x)) xs) ≡ true
  unfolding any keep
  any-keep p g [] e n = ground arith
  any-keep p g (x ∷ xs) e n = ground (arith, any-keep p g xs)

  pub any-find : (p : A → Bool) (xs : List A) (x : A) → find p xs ≡ some x → any p xs ≡ true
  unfolding any find
  any-find p [] x e = ground arith
  any-find p (y ∷ ys) x e = ground (arith, any-find p ys x)

  -- Two tests of which one implies the other.
  pub any_mono :
      (p q : A → Bool)
      → ((x : A) → p x ≡ true → q x ≡ true)
      → (xs : List A) → any p xs ≡ true
      → any q xs ≡ true
  unfolding any
  any_mono p q h [] e = ground arith
  any_mono p q h (x ∷ xs) e = ground (arith, h x, any_mono p q h xs)

  pub any_ext : (p q : A → Bool) → ((x : A) → p x ≡ q x) → (xs : List A) → any p xs ≡ any q xs
  unfolding any
  any_ext p q h [] = refl
  any_ext p q h (x ∷ xs) = ground (arith, h x, any_ext p q h xs)

  -- An update that settles the rows it changes, and spares only rows that were no concern before.
  pub any-update-false :
      (q before p : A → Bool) (f : A → A)
      → ((x : A) → p x ≡ true → q (f x) ≡ false)
      → ((x : A) → p x ≡ false → before x ≡ false → q x ≡ false)
      → (xs : List A) → any before xs ≡ false
      → any q (update p f xs) ≡ false
  unfolding any update
  any-update-false q before p f settles spares [] e = refl
  any-update-false q before p f settles spares (x ∷ xs) e =
      ground (arith, settles x, spares x, any-update-false q before p f settles spares xs)

  pub update-update :
      (p : A → Bool) (f : A → A)
      → ((x : A) → p (f x) ≡ p x)
      → ((x : A) → f (f x) ≡ f x)
      → (xs : List A) → update p f (update p f xs) ≡ update p f xs
  unfolding update
  update-update p f kept again [] = refl
  update-update p f kept again (x ∷ xs) =
      ground (arith, kept x, again x, update-update p f kept again xs)

  -- A column that an update does not write.
  pub map-update :
      {B : Type 0} (column : A → B) (p : A → Bool) (f : A → A)
      → ((x : A) → column (f x) ≡ column x)
      → (xs : List A) → map column (update p f xs) ≡ map column xs
  unfolding update
  map-update column p f kept [] = refl
  map-update column p f kept (x ∷ xs) = elim (Bool-cases (p x)) [
    | inl e ↦ rw e (
        ap (λ c. c ∷ map column (update p f xs)) (kept x)
        ∙ ap (λ cs. column x ∷ cs) (map-update column p f kept xs))
    | inr e ↦ rw e (ap (λ cs. column x ∷ cs) (map-update column p f kept xs))
  ]

  pub any_none :
      (p q : A → Bool)
      → ((x : A) → p x ≡ true → q x ≡ true)
      → (xs : List A) → any q xs ≡ false
      → any p xs ≡ false
  unfolding any
  any_none p q h [] e = refl
  any_none p q h (x ∷ xs) e = ground (arith, h x, any_none p q h xs)

  -- A list has a row that is the same for each of its rows.
  pub any_self :
      (same : A → A → Bool)
      → ((x : A) → same x x ≡ true)
      → (xs : List A) → any (λ x. not (any (same x) xs)) xs ≡ false
  unfolding any
  any_self same reflexive [] = refl
  any_self same reflexive (x ∷ xs) = ground (
    arith,
    reflexive x,
    any_none (λ z. not (any (same z) (x ∷ xs))) (λ z. not (any (same z) xs)) (λ z h. ground arith)
        xs (any_self same reflexive xs),
  )

  pub any_never : (xs : List A) → any (λ x. false) xs ≡ false
  unfolding any
  any_never [] = refl
  any_never (x ∷ xs) = any_never xs

  -- A row that one query finds and another does not.
  pub any_split :
      (p q : A → Bool) (xs : List A)
      → any p xs ≡ true
      → any q xs ≡ false
      → (x : A) × (p x ≡ true) × (q x ≡ false)
  unfolding any
  any_split p q [] e n = absurd (ground arith)
  any_split p q (x ∷ xs) e n = elim (Bool-cases (p x)) [
    | inl b ↦ (x, b, ground arith)
    | inr b ↦ any_split p q xs (ground arith) (ground arith)
  ]

  pub any-or_none :
      (p q : A → Bool) (xs : List A)
      → any p xs ≡ false
      → any q xs ≡ false
      → any (λ x. p x || q x) xs ≡ false
  unfolding any
  any-or_none p q [] e n = refl
  any-or_none p q (x ∷ xs) e n = ground (arith, any-or_none p q xs)

  pub length-update : (p : A → Bool) (f : A → A) (xs : List A) → length (update p f xs) ≡ length xs
  unfolding update
  length-update p f [] = refl
  length-update p f (x ∷ xs) = ground (arith, length-update p f xs)

  -- What holds of the row that is found holds of some row.
  pub find-any :
      (p q : A → Bool) (xs : List A) (x : A) → find p xs ≡ some x → q x ≡ true → any q xs ≡ true
  unfolding find any
  find-any p q [] x e h = ground arith
  find-any p q (y ∷ ys) x e h = ground (arith, find-any p q ys x)
