-- ===== src/Keys/Examples.antt =====
-- A key of the smallest kind: ids that are printed as one character.
use openfotos_platform.Prelude.{ℕ, ◌≡◌, refl, Text, [], ◌∷◌, length, arith, some}
use openfotos_platform.States.{Variant}
use openfotos_platform.Keys.{asset_key, codes, shape, variant_text}
use openfotos_platform.Keys.Distinct.{asset_key-injective}

abbrev digit : ℕ → Text
digit n = n ∷ []

digit-length : (m n : ℕ) → length (digit m) ≡ length (digit n)
digit-length m n = refl

digit-injective : (m n : ℕ) → digit m ≡ digit n → m ≡ n
digit-injective m n e = ground arith

abbrev first : ℕ
first = 49

abbrev second : ℕ
second = 50

preview_key :
    asset_key digit first second Variant.preview (codes "image/png")
    ≡ some (codes "events/1/previews/2.jpg")
unfolding asset_key shape variant_text
preview_key = refl

asset_key-injective_example :
    (first ≡ first) × (second ≡ second) × (Variant.preview ≡ Variant.preview)
asset_key-injective_example =
    asset_key-injective digit digit-length digit-injective first second first second Variant.preview
      Variant.preview (codes "image/png") (codes "image/png") (codes "events/1/previews/2.jpg")
      preview_key preview_key
