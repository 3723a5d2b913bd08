-- ===== src/Derivatives/Leases.antt =====
-- `issue_derivative_leases` and `issue_owned_original_url` of derivative_services.py: the URLs by which a
-- desktop uploads derivatives and reads the original that it derives them from.
use openfotos_platform.Prelude.{
  >>=-eq-ok, arith, ◌≡◌, ℕ, Bool, true, false, not, ◌&&◌, ◌||◌, Option, List, [], ◌∷◌, ◌++◌, Text,
  Result, ok, or_raise, raise_if, ◌>>=◌, ◌>>◌, ◌==◌, any, find, keep, length, map,
}
use openfotos_platform.States.{EventState, UploadObjectState, Variant, one_of}
use openfotos_platform.Models.{Code, DesktopSession, AssetObject, Db}
use openfotos_platform.Platform.{Platform, Lease}
use openfotos_platform.Ingest.Rows.{World, event_for_session, is_original_of, is_verified}
use openfotos_platform.Derivatives.{asset_for_processing_session, same_variant}

pub record DerivativeLease : Type 0 where
  pub asset_id : ℕ
  pub variant : Variant
  pub url : Text
  pub expires_at : ℕ

abbrev pub has_variant : List Variant → Variant → Bool
has_variant variants v = any (λ x. same_variant x v) variants

-- `len(set(variants)) != len(variants)`
abbrev pub repeats_variant : List Variant → Bool
repeats_variant [] = false
repeats_variant (v ∷ vs) = has_variant vs v || repeats_variant vs

-- `state__in=(RESERVED, FAILED)`
abbrev pub awaits_upload : UploadObjectState → Bool
awaits_upload UploadObjectState.reserved = true
awaits_upload UploadObjectState.failed = true
awaits_upload _ = false

abbrev pub is_leasable : (asset : ℕ) → List Variant → AssetObject → Bool
is_leasable asset variants o =
    o.asset == asset && (has_variant variants o.variant && awaits_upload o.state)

-- `order_by("variant")`: the names of the variants in their alphabetical order.
unfoldable pub by_variant : List AssetObject → List AssetObject
by_variant objects =
    keep (λ o. same_variant o.variant Variant.original) objects
    ++ keep (λ o. same_variant o.variant Variant.preview) objects
    ++ keep (λ o. same_variant o.variant Variant.thumbnail) objects

unfoldable pub leasable_objects : (asset : ℕ) → List Variant → Db → List AssetObject
leasable_objects asset variants db = by_variant (keep (is_leasable asset variants) db.objects)

abbrev pub derivative_lease : (asset : ℕ) → AssetObject → Lease → DerivativeLease
derivative_lease asset o l = record {
  asset_id = asset;
  variant = o.variant;
  url = l.url;
  expires_at = l.expires_at;
}

-- What a desktop needs to read an original.
pub record OriginalUrl : Type 0 where
  pub asset_id : ℕ
  pub sha256 : Text
  pub url : Text
  pub expires_at : ℕ

abbrev pub original_url : (asset : ℕ) → AssetObject → Lease → OriginalUrl
original_url asset o l = record {
  asset_id = asset;
  sha256 = o.sha256;
  url = l.url;
  expires_at = l.expires_at;
}

module _ (p : Platform) where
  open p use {Bucket, presign_put, upload_lease_ttl_seconds}

  unfoldable pub sign_derivatives :
      (asset : ℕ) → List AssetObject → Bucket → Result Code (List DerivativeLease)
  sign_derivatives asset [] b = ok []
  sign_derivatives asset (o ∷ os) b = do
    signed ← or_raise Code.object_store_unavailable (
        presign_put o.object_key o.expected_bytes o.content_md5 o.sha256 o.content_type
          upload_lease_ttl_seconds b)
    leases ← sign_derivatives asset os b
    ok (derivative_lease asset o signed ∷ leases)

  unfoldable pub issue_derivative_leases :
      DesktopSession
      → (event_id asset_id : ℕ) → List Variant
      → World p
      → Result Code (List DerivativeLease)
  issue_derivative_leases s event_id asset_id variants w = do
    event ← event_for_session s event_id w.db
    raise_if
        (one_of w.db.event.state
          (EventState.published ∷ EventState.archived ∷ EventState.cancelled ∷ []))
        Code.event_not_processing
    asset ← asset_for_processing_session s asset_id w.db
    raise_if (length variants == 0 || repeats_variant variants) Code.invalid_request
    sign_derivatives asset.id (leasable_objects asset.id variants w.db) w.bucket

  -- `presign_get` is the object store's, for `SIGNED_URL_TTL_SECONDS`.
  unfoldable pub issue_owned_original_url :
      (presign_get : Text → (ttl : ℕ) → Bucket → Option Lease) (signed_url_ttl_seconds : ℕ)
      → DesktopSession
      → (event_id asset_id : ℕ) → World p
      → Result Code OriginalUrl
  issue_owned_original_url presign_get signed_url_ttl_seconds s event_id asset_id w = do
    event ← event_for_session s event_id w.db
    asset ← asset_for_processing_session s asset_id w.db
    original ← or_raise Code.row_missing (find (is_original_of asset.id) w.db.objects)
    raise_if (not (is_verified original.state)) Code.original_not_verified
    signed ←
        or_raise Code.object_store_unavailable
          (presign_get original.object_key signed_url_ttl_seconds w.bucket)
    ok (original_url asset.id original signed)

  -- The leases that are signed are one for each object, in their order.
  pub sign_derivatives-variants :
      (asset : ℕ) (objects : List AssetObject) (b : Bucket) (leases : List DerivativeLease)
      → sign_derivatives asset objects b ≡ ok leases
      → map (λ l. l.variant) leases ≡ map (λ o. o.variant) objects
  unfolding sign_derivatives
  sign_derivatives-variants asset [] b leases h = ground arith
  sign_derivatives-variants asset (o ∷ os) b leases h =
      let url = or_raise Code.object_store_unavailable (
        presign_put o.object_key o.expected_bytes o.content_md5 o.sha256 o.content_type
          upload_lease_ttl_seconds b) in
      let (signed, put, rest) =
        >>=-eq-ok url
          (λ signed.
            sign_derivatives asset os b >>= (λ more. ok (derivative_lease asset o signed ∷ more)))
          h in
      let (more, others, done) =
        >>=-eq-ok (sign_derivatives asset os b)
          (λ more. ok (derivative_lease asset o signed ∷ more)) rest in
      ground (arith, done, sign_derivatives-variants asset os b more others)
