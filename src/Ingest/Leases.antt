-- ===== src/Ingest/Leases.antt =====
-- `issue_upload_leases` of ingestion_services.py.
use openfotos_platform.Prelude.{
  ℕ, Bool, true, false, not, ◌&&◌, ◌||◌, Option, none, some, List, [], ◌∷◌, Text, Result, ok,
  or_raise, raise_if, ◌>>=◌, ◌>>◌, ◌==◌, ltb, any, keep, length, take, if◌then◌else◌,
}
use openfotos_platform.States.{EventState, UploadObjectState, ◌=ˢ◌, is_open}
use openfotos_platform.Models.{Code, DesktopSession, AssetObject, Db}
use openfotos_platform.Platform.{Platform, Lease}
use openfotos_platform.Ingest.Rows.{
  World, is_reserved_batch, is_pending_original, event_for_session, owned_batch, save_original,
}
use openfotos_platform.Ingest.Manifest.{sort_by_asset}

pub record UploadLease : Type 0 where
  pub asset_id : ℕ
  pub url : Text
  pub expires_at : ℕ

abbrev pub has_duplicate : List ℕ → Bool
has_duplicate [] = false
has_duplicate (x ∷ xs) = any (λ y. y == x) xs || has_duplicate xs

abbrev pub is_selected : Option (List ℕ) → ℕ → Bool
is_selected none asset = true
is_selected (some ids) asset = any (λ i. i == asset) ids

-- `not asset_ids or len(asset_ids) > PAGE_SIZE or len(set(asset_ids)) != len(asset_ids)`
abbrev pub is_invalid_selection : (page_size : ℕ) → Option (List ℕ) → Bool
is_invalid_selection page_size none = false
is_invalid_selection page_size (some ids) =
    length ids == 0 || (ltb page_size (length ids) || has_duplicate ids)

abbrev pub leased_row : ℕ → AssetObject → AssetObject
leased_row expires_at o = record o {
  state = UploadObjectState.reserved;
  failure_code = none;
  lease_expires_at = some expires_at;
}

abbrev pub lease_of : AssetObject → Lease → UploadLease
lease_of o l = record { asset_id = o.asset; url = l.url; expires_at = l.expires_at }

module _ (p : Platform) where
  open p use {presign_put, upload_lease_page_size, upload_lease_ttl_seconds}

  -- The originals that still need an upload: one page, in the order of their asset ids.
  unfoldable pub lease_page : (batch : ℕ) → Option (List ℕ) → Db → List AssetObject
  lease_page batch selection db = take upload_lease_page_size (
      sort_by_asset
        (keep (λ o. is_pending_original batch o && is_selected selection o.asset) db.objects))

  -- The loop over the page. A lease that cannot be signed raises, and the transaction is undone.
  -- The digest is that of the asset, which its original repeats.
  unfoldable pub sign_all : List AssetObject → p.Bucket → Db → Result Code (List UploadLease × Db)
  sign_all [] b db = ok ([], db)
  sign_all (o ∷ os) b db = do
    lease ← or_raise Code.object_store_unavailable (
        presign_put o.object_key o.expected_bytes o.content_md5 o.sha256 o.content_type
          upload_lease_ttl_seconds b)
    (leases, saved) ← sign_all os b (save_original (leased_row lease.expires_at o) db)
    ok (lease_of o lease ∷ leases, saved)

  unfoldable pub issue_upload_leases :
      DesktopSession
      → (event_id batch_id : ℕ) → Option (List ℕ)
      → World p
      → Result Code (List UploadLease × Db)
  issue_upload_leases s event_id batch_id selection w = do
    event ← event_for_session s event_id w.db
    raise_if (not (is_open w.db.event.intake_state) || w.db.event.state =ˢ EventState.published)
        Code.event_published
    batch ← owned_batch s batch_id w.db
    if not (is_reserved_batch batch.state) then ok ([], w.db) else do
      raise_if (is_invalid_selection upload_lease_page_size selection) Code.invalid_request
      sign_all (lease_page batch.id selection w.db) w.bucket w.db
