-- ===== src/Prelude/Lists.antt =====
-- Lists measured by native numbers, and Boolean queries on them.
use Prim.Native.Nat.{ℕ, suc, zero, ◌+◌, ◌≤◌}
use mathlib.Core.Path.{◌≡◌, refl}
use mathlib.Core.Bool.{Bool, true, false, ◌||◌}
use mathlib.Core.Option.{Option, none, some}
use mathlib.Core.List.{List, [], ◌∷◌, ◌++◌}
use native.Mathlib.Omega.{arith}
use openfotos_platform.Prelude.Tests.{if◌then◌else◌}

module _ {ℓ} {A : Type ℓ} where
  abbrev pub length : List A → ℕ
  length [] = 0
  length (x ∷ xs) = suc (length xs)

  abbrev pub take : ℕ → List A → List A
  take zero xs = []
  take (suc n) [] = []
  take (suc n) (x ∷ xs) = x ∷ take n xs

  -- Does some row satisfy the test?
  unfoldable pub any : (A → Bool) → List A → Bool
  any p [] = false
  any p (x ∷ xs) = p x || any p xs

  -- The rows that satisfy the test, in order.
  unfoldable pub keep : (A → Bool) → List A → List A
  keep p [] = []
  keep p (x ∷ xs) = let rest = keep p xs in if p x then x ∷ rest else rest

  -- The first row that satisfies the test.
  unfoldable pub find : (A → Bool) → List A → Option A
  find p [] = none
  find p (x ∷ xs) = let rest = find p xs in if p x then some x else rest

  -- Replace the first row that satisfies the test.
  unfoldable pub replace : (A → Bool) → A → List A → List A
  replace p y [] = []
  replace p y (x ∷ xs) = let rest = x ∷ replace p y xs in if p x then y ∷ xs else rest

  -- Change each row that satisfies the test.
  unfoldable pub update : (A → Bool) → (A → A) → List A → List A
  update p f [] = []
  update p f (x ∷ xs) = let rest = update p f xs in if p x then f x ∷ rest else x ∷ rest

  -- The sum of a weight over the rows.
  unfoldable pub total : (A → ℕ) → List A → ℕ
  total w [] = 0
  total w (x ∷ xs) = w x + total w xs

  pub total-append : (w : A → ℕ) (xs ys : List A) → total w (xs ++ ys) ≡ total w xs + total w ys
  unfolding total
  total-append w [] ys = omega arith
  total-append w (x ∷ xs) ys = omega (arith, total-append w xs ys)

  -- Replacing the row that `find` returns moves a total by the difference of the two weights.
  pub total-replace :
      (w : A → ℕ) (p : A → Bool) (y : A) (xs : List A) (x : A)
      → find p xs ≡ some x
      → total w (replace p y xs) + w x ≡ total w xs + w y
  unfolding total find replace
  total-replace w p y [] x h = ground arith
  total-replace w p y (z ∷ xs) x h = ground (arith, total-replace w p y xs x)

  pub total_mono : (v w : A → ℕ) → ((x : A) → v x ≤ w x) → (xs : List A) → total v xs ≤ total w xs
  unfolding total
  total_mono v w h [] = omega arith
  total_mono v w h (x ∷ xs) = omega (arith, h x, total_mono v w h xs)

  pub length-append : (xs ys : List A) → length (xs ++ ys) ≡ length xs + length ys
  length-append [] ys = omega arith
  length-append (x ∷ xs) ys = omega (arith, length-append xs ys)

  pub find-append :
      (p : A → Bool) (xs : List A) (y : A)
      → find p xs ≡ none
      → p y ≡ true
      → find p (xs ++ y ∷ []) ≡ some y
  unfolding find
  find-append p [] y h e = ground arith
  find-append p (x ∷ xs) y h e = ground (arith, find-append p xs y)

  pub find_sound : (p : A → Bool) (xs : List A) (x : A) → find p xs ≡ some x → p x ≡ true
  unfolding find
  find_sound p [] x h = ground arith
  find_sound p (z ∷ xs) x h = ground (arith, find_sound p xs x)

  -- Changing rows to weight zero takes away what they weighed.
  pub total-update :
      (w : A → ℕ) (p : A → Bool) (f : A → A)
      → ((x : A) → p x ≡ true → w (f x) ≡ 0)
      → (xs : List A)
      → total w (update p f xs) + total (λ x. if p x then w x else 0) xs ≡ total w xs
  unfolding total update
  total-update w p f h [] = omega arith
  total-update w p f h (x ∷ xs) = ground (arith, h x, total-update w p f h xs)

  -- Two weights that agree on every row that the test spares have one total.
  pub total-agree :
      (v w : A → ℕ) (p : A → Bool)
      → ((x : A) → p x ≡ false → v x ≡ w x)
      → (xs : List A) → any p xs ≡ false
      → total v xs ≡ total w xs
  unfolding total any
  total-agree v w p h [] none_so = omega arith
  total-agree v w p h (x ∷ xs) none_so = ground (arith, h x, total-agree v w p h xs)

  pub total-zero : (xs : List A) → total (λ x. 0) xs ≡ 0
  unfolding total
  total-zero [] = refl
  total-zero (x ∷ xs) = omega (arith, total-zero xs)

  pub total-ext : (v w : A → ℕ) → ((x : A) → v x ≡ w x) → (xs : List A) → total v xs ≡ total w xs
  unfolding total
  total-ext v w h [] = refl
  total-ext v w h (x ∷ xs) = omega (arith, h x, total-ext v w h xs)
