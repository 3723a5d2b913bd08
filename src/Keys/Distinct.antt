-- ===== src/Keys/Distinct.antt =====
-- The key of a stored object names one event, one asset and one variant.
use openfotos_platform.Prelude.{
  Option-cases, inl, inr, ℕ, ◌≡◌, refl, Text, [], ◌∷◌, ◌++◌, some, length, arith,
}
use openfotos_platform.States.{Variant}
use openfotos_platform.Keys.{asset_key, shape, variant_text, codes, original_extension}

append-injective :
    (xs ys s t : Text) → length xs ≡ length ys → xs ++ s ≡ ys ++ t → (xs ≡ ys) × (s ≡ t)
append-injective [] [] s t l e = (refl, e)
append-injective [] (y ∷ ys) s t l e = ground arith
append-injective (x ∷ xs) [] s t l e = ground arith
append-injective (x ∷ xs) (y ∷ ys) s t l e = ground (arith, append-injective xs ys s t)

module _ (uuid_text : ℕ → Text)
    (same_length : (m n : ℕ) → length (uuid_text m) ≡ length (uuid_text n))
    (distinct : (m n : ℕ) → uuid_text m ≡ uuid_text n → m ≡ n) where
  prefix_free :
      (v w : Variant) (s t : Text) → variant_text v ++ s ≡ variant_text w ++ t → (v ≡ w) × (s ≡ t)
  unfolding variant_text
  prefix_free v w s t e = ground arith

  tail-injective :
      (asset asset' : ℕ) (x x' : Text)
      → b'/' ∷ (uuid_text asset ++ x) ≡ b'/' ∷ (uuid_text asset' ++ x')
      → asset ≡ asset'
  tail-injective asset asset' x x' e =
      let inner : uuid_text asset ++ x ≡ uuid_text asset' ++ x' = ground (arith) in
      distinct asset asset'
        (append-injective (uuid_text asset) (uuid_text asset') x x' (same_length asset asset')
          inner).0

  shape-injective :
      (event asset event' asset' : ℕ) (v v' : Variant) (x x' : Text)
      → shape uuid_text event v asset x ≡ shape uuid_text event' v' asset' x'
      → (event ≡ event') × (asset ≡ asset') × (v ≡ v')
  unfolding shape
  shape-injective event asset event' asset' v v' x x' e =
      let rest : ℕ → Variant → ℕ → Text → Text =
        λ n w a y. b'/' ∷ (variant_text w ++ (b'/' ∷ (uuid_text a ++ y))) in
      let stripped : uuid_text event ++ rest event v asset x
          ≡ uuid_text event' ++ rest event' v' asset' x' =
        ground (arith) in
      let (events, rests) =
        append-injective (uuid_text event) (uuid_text event') (rest event v asset x)
          (rest event' v' asset' x') (same_length event event') stripped in
      let (variants, tails) =
        prefix_free v v' (b'/' ∷ (uuid_text asset ++ x)) (b'/' ∷ (uuid_text asset' ++ x'))
          (ground (arith, rests)) in
      (distinct event event' events, tail-injective asset asset' x x' tails, variants)

  asset_key-shape :
      (event asset : ℕ) (v : Variant) (content_type k : Text)
      → asset_key uuid_text event asset v content_type ≡ some k
      → (x : Text) × (shape uuid_text event v asset x ≡ k)
  unfolding asset_key
  asset_key-shape event asset Variant.original ct k e =
      elim (Option-cases (original_extension ct)) [
        | inl missing ↦ ground (arith, missing)
        | inr (x, present) ↦ (x, ground (arith, present))
      ]
  asset_key-shape event asset Variant.preview ct k e = (codes ".jpg", ground arith)
  asset_key-shape event asset Variant.thumbnail ct k e = (codes ".jpg", ground arith)

  -- With ids printed at one length and without a collision, two requests for a key get the same key
  -- only for the same event, asset and variant.
  pub asset_key-injective :
      (event asset event' asset' : ℕ) (v v' : Variant) (content_type content_type' k : Text)
      → asset_key uuid_text event asset v content_type ≡ some k
      → asset_key uuid_text event' asset' v' content_type' ≡ some k
      → (event ≡ event') × (asset ≡ asset') × (v ≡ v')
  asset_key-injective event asset event' asset' v v' ct ct' k e e' =
      let (x, p) = asset_key-shape event asset v ct k e in
      let (x', p') = asset_key-shape event' asset' v' ct' k e' in
      shape-injective event asset event' asset' v v' x x' (cc)
