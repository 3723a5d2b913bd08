-- ===== src/Prelude/Order.antt =====
-- Sorting a query's rows, and what sorting leaves alone.
use Prim.Native.Nat.{ℕ, ◌+◌}
use mathlib.Core.Path.{◌≡◌, refl}
use mathlib.Core.Bool.{◌&&◌, Bool, true, false, ◌||◌}
use mathlib.Core.List.{List, [], ◌∷◌}
use native.Mathlib.Omega.{arith}
use openfotos_platform.Prelude.Tests.{Text, ltb, leb, ◌=ᵗ◌, if◌then◌else◌}
use openfotos_platform.Prelude.Lists.{any, total}

-- The order of texts: by code points.
unfoldable pub text_before : Text → Text → Bool
text_before [] [] = false
text_before [] (y ∷ ys) = true
text_before (x ∷ xs) [] = false
text_before (x ∷ xs) (y ∷ ys) =
    let rest = text_before xs ys in if ltb x y then true else if ltb y x then false else rest

-- `ORDER BY` a text, and the id where the texts agree
abbrev pub text_then_id : Text → ℕ → Text → ℕ → Bool
text_then_id s i t j = text_before s t || (s =ᵗ t && leb i j)

module _ {ℓ} {A : Type ℓ} where
  unfoldable pub insert_by : (A → A → Bool) → A → List A → List A
  insert_by le x [] = x ∷ []
  insert_by le x (y ∷ ys) = let rest = y ∷ insert_by le x ys in if le x y then x ∷ y ∷ ys else rest

  -- `ORDER BY`
  unfoldable pub sort_by : (A → A → Bool) → List A → List A
  unfolding insert_by
  sort_by le [] = []
  sort_by le (x ∷ xs) = insert_by le x (sort_by le xs)

  any-insert_by :
      (p : A → Bool) (le : A → A → Bool) (x : A) (xs : List A)
      → any p (insert_by le x xs) ≡ (p x || any p xs)
  unfolding any insert_by
  any-insert_by p le x [] = refl
  any-insert_by p le x (y ∷ ys) = ground (arith, any-insert_by p le x ys)

  pub any-sort_by :
      (p : A → Bool) (le : A → A → Bool) (xs : List A) → any p (sort_by le xs) ≡ any p xs
  unfolding any sort_by
  any-sort_by p le [] = refl
  any-sort_by p le (x ∷ xs) =
      ground (arith, any-insert_by p le x (sort_by le xs), any-sort_by p le xs)

  total-insert_by :
      (w : A → ℕ) (le : A → A → Bool) (x : A) (xs : List A)
      → total w (insert_by le x xs) ≡ w x + total w xs
  unfolding total insert_by
  total-insert_by w le x [] = refl
  total-insert_by w le x (y ∷ ys) = ground (arith, total-insert_by w le x ys)

  pub total-sort_by :
      (w : A → ℕ) (le : A → A → Bool) (xs : List A) → total w (sort_by le xs) ≡ total w xs
  unfolding total sort_by
  total-sort_by w le [] = refl
  total-sort_by w le (x ∷ xs) =
      omega (arith, total-insert_by w le x (sort_by le xs), total-sort_by w le xs)
