-- ===== src/Keys.antt =====
-- packages/storage/src/openfotos_storage/keys.py: the keys of stored objects.
pub mod Distinct
pub mod Examples
use Prim.Native.String.{String}
use Prim.Native.Char.{code}
use openfotos_platform.Prelude.{
  ℕ, Text, List, [], ◌∷◌, ◌++◌, Option, none, some, if◌then◌else◌, ◌=ᵗ◌,
}
use openfotos_platform.States.{Variant}

-- The code points of a literal.
abbrev pub codes : String → Text
codes String.[] = []
codes (String.◌∷◌ c s) = code c ∷ codes s

-- `ORIGINAL_EXTENSION_BY_CONTENT_TYPE`; `none` is a `KeyError`.
unfoldable pub original_extension : Text → Option Text
original_extension content_type =
    if content_type =ᵗ codes "image/jpeg"
    then some (codes ".jpg")
    else if content_type =ᵗ codes "image/png"
    then some (codes ".png")
    else if content_type =ᵗ codes "image/webp"
    then some (codes ".webp")
    else if content_type =ᵗ codes "image/heic"
    then some (codes ".heic")
    else if content_type =ᵗ codes "image/heif"
    then some (codes ".heif")
    else none

-- `AssetVariant.value`
unfoldable pub variant_text : Variant → Text
variant_text Variant.original = codes "originals"
variant_text Variant.preview = codes "previews"
variant_text Variant.thumbnail = codes "thumbnails"

module _ (uuid_text : ℕ → Text) where
  shape : ℕ → Variant → ℕ → Text → Text
  shape event asset_variant asset extension =
      codes "events/"
      ++ (uuid_text event
          ++ (codes "/"
              ++ (variant_text asset_variant ++ (codes "/" ++ (uuid_text asset ++ extension)))))

  -- `none` is the `ValueError` for an unsupported content type.
  unfoldable pub asset_key : ℕ → ℕ → Variant → Text → Option Text
  unfolding shape original_extension
  asset_key event asset Variant.original content_type = elim (original_extension content_type) [
    | none ↦ none
    | some extension ↦ some (shape event Variant.original asset extension)
  ]
  asset_key event asset v content_type = some (shape event v asset (codes ".jpg"))
