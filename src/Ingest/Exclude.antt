-- ===== src/Ingest/Exclude.antt =====
-- `exclude_asset` and `cancel_batch` of ingestion_services.py: reserved bytes and photos are given
-- back.
use openfotos_platform.Prelude.{
  ℕ, none, some, Bool, not, ◌&&◌, ◌||◌, List, [], ◌∷◌, Text, Result, ok, err, or_raise, raise_if,
  ◌>>=◌, ◌>>◌, ◌==◌, ltb, any, find, keep, update, total, length, if◌then◌else◌,
}
use openfotos_platform.States.{UploadObjectState, ContributionState}
use openfotos_platform.Keys.{codes}
use openfotos_platform.Models.{
  Code, DesktopSession, AssetObject, ContributionBatch, Db, AuditEntry, record_audit, save_event,
  decrease,
}
use openfotos_platform.Platform.{Platform}
use openfotos_platform.Ingest.Rows.{
  and_then, World, is_verified, is_excluded, is_cancelled_batch, is_original_of, in_batch,
  lease_active, has_control, event_for_session, save_original, complete_batch_if_terminal,
  delete_unverified_object,
}

-- `reserved_original_bytes -= bytes` and `reserved_original_count -= count`, and the save.
unfoldable pub release : (now bytes count : ℕ) → Db → Result Code Db
unfolding save_event decrease
release now bytes count db = do
  left_bytes ← decrease db.event.reserved_original_bytes bytes
  left_count ← decrease db.event.reserved_original_count count
  save_event now
      (record db.event {
        reserved_original_bytes = left_bytes;
        reserved_original_count = left_count;
      })
      db

abbrev pub excluded_row : (user : ℕ) → Text → AssetObject → AssetObject
excluded_row user reason o = record o {
  state = UploadObjectState.excluded;
  excluded_reason = reason;
  excluded_by = some user;
  failure_code = none;
}

-- The writes of an exclusion, once the object is removed.
unfoldable pub drop_original : (now user : ℕ) → Text → AssetObject → Db → Result Code Db
unfolding release complete_batch_if_terminal
drop_original now user reason locked db = do
  released ←
      release now locked.expected_bytes 1 (save_original (excluded_row user reason locked) db)
  ok (complete_batch_if_terminal locked.batch now released)

unfoldable pub exclusion_checks : (now asset_id : ℕ) → Db → Result Code AssetObject
exclusion_checks now asset_id db = do
  asset ← or_raise Code.asset_not_found (find (λ a. a.id == asset_id) db.assets)
  locked ← or_raise Code.row_missing (find (is_original_of asset_id) db.objects)
  raise_if (is_verified locked.state) Code.asset_immutable
  ok locked

-- The batch's uploads that still hold a reservation; `exclude(state=EXCLUDED)`.
abbrev pub is_releasable : (batch : ℕ) → AssetObject → Bool
is_releasable batch o = in_batch batch o && not (is_excluded o.state)

abbrev pub releasable_bytes : (batch : ℕ) → List AssetObject → ℕ
releasable_bytes batch objects =
    total (λ o. if is_releasable batch o then o.expected_bytes else 0) objects

abbrev pub releasable_count : (batch : ℕ) → List AssetObject → ℕ
releasable_count batch objects = total (λ o. if is_releasable batch o then 1 else 0) objects

unfoldable pub cancellation_checks : (now : ℕ) → (batch : ℕ) → Db → Result Code (Unit {0})
cancellation_checks now batch db = do
  raise_if (any (λ o. in_batch batch o && is_verified o.state) db.objects)
      Code.batch_has_verified_assets
  raise_if (any (λ o. in_batch batch o && lease_active now o) db.objects) Code.upload_lease_active
  ok tt

-- The writes of a cancellation, once the objects are removed.
unfoldable pub cancel_rows : (now user : ℕ) → ContributionBatch → Db → Result Code Db
unfolding release
cancel_rows now user b db =
    release now (releasable_bytes b.id db.objects) (releasable_count b.id db.objects) (record db {
      objects =
          update (is_releasable b.id)
            (excluded_row user (codes "Contribution cancelled by the photographer.")) db.objects;
      batches =
          update (λ r. r.id == b.id)
            (λ r. record r { state = ContributionState.cancelled; cancelled_at = some now })
            db.batches;
    })

abbrev pub cancelled_batch : (now : ℕ) → ContributionBatch → ContributionBatch
cancelled_batch now b = record b { state = ContributionState.cancelled; cancelled_at = some now }

module _ (p : Platform) where
  open p use {Bucket, strip}

  -- A transaction's writes, then its audit entry; a raise keeps the database.
  abbrev pub conclude {ℓ} :
      {A : Type ℓ} → A → AuditEntry → Result Code Db → World p → Result Code A × World p
  conclude a entry (ok db') w = (ok a, record w { db = record_audit entry db' })
  conclude a entry (err c) w = (err c, w)

  abbrev pub exclude_locked :
      (now user asset_id : ℕ) → Text → AssetObject → World p → Result Code AssetObject × World p
  exclude_locked now user asset_id reason locked w =
      if is_excluded locked.state
      then (ok locked, w)
      else if lease_active now locked
      then (err Code.upload_lease_active, w)
      else let (removed, bucket') = delete_unverified_object p locked.object_key w.bucket in
        conclude (excluded_row user reason locked) (AuditEntry.asset_excluded_entry asset_id)
          (removed >>= (λ _. drop_original now user reason locked w.db))
          (record w { bucket = bucket' })

  -- The original that a request names, once its reason is found fit.
  unfoldable pub excludable_original :
      DesktopSession → (event_id asset_id now : ℕ) → Text → Db → Result Code AssetObject
  unfolding exclusion_checks has_control
  excludable_original s event_id asset_id now normalized db = do
    event ← event_for_session s event_id db
    raise_if (length normalized == 0 || (ltb 240 (length normalized) || has_control normalized))
        Code.invalid_exclusion_reason
    exclusion_checks now asset_id db

  unfoldable pub exclude_asset :
      DesktopSession
      → (event_id asset_id now : ℕ) → Text
      → World p
      → Result Code AssetObject × World p
  unfolding drop_original delete_unverified_object
  exclude_asset s event_id asset_id now reason w =
      and_then p (excludable_original s event_id asset_id now (strip reason) w.db)
        (exclude_locked now s.user asset_id (strip reason)) w

  -- Removes the objects in their order, up to the first failure.
  unfoldable pub delete_all : List AssetObject → Bucket → Result Code (Unit {0}) × Bucket
  unfolding delete_unverified_object
  delete_all [] b = (ok tt, b)
  delete_all (o ∷ os) b =
      let (removed, b') = delete_unverified_object p o.object_key b in
      let rest = delete_all os b' in elim removed [ ok done ↦ rest | err c ↦ (err c, b') ]

  -- The cancellation of a batch that passed the checks.
  abbrev pub cancel_checked :
      (now user : ℕ)
      → ContributionBatch
      → Unit {0}
      → World p
      → Result Code ContributionBatch × World p
  cancel_checked now user b checked w =
      let (removed, bucket') = delete_all (keep (in_batch b.id) w.db.objects) w.bucket in
      conclude (cancelled_batch now b)
        (AuditEntry.contribution_cancelled b.id (releasable_bytes b.id w.db.objects)
          (releasable_count b.id w.db.objects))
        (removed >>= (λ _. cancel_rows now user b w.db)) (record w { bucket = bucket' })

  abbrev pub cancel_locked :
      (now user : ℕ) → ContributionBatch → World p → Result Code ContributionBatch × World p
  cancel_locked now user b w =
      if is_cancelled_batch b.state
      then (ok b, w)
      else and_then p (cancellation_checks now b.id w.db) (cancel_checked now user b) w

  unfoldable pub cancellable_batch :
      DesktopSession → (event_id batch_id : ℕ) → Db → Result Code ContributionBatch
  cancellable_batch s event_id batch_id db = do
    event ← event_for_session s event_id db
    or_raise Code.batch_not_found (find (λ b. b.id == batch_id) db.batches)

  unfoldable pub cancel_batch :
      DesktopSession
      → (event_id batch_id now : ℕ) → World p
      → Result Code ContributionBatch × World p
  unfolding cancellation_checks cancel_rows delete_all
  cancel_batch s event_id batch_id now w =
      and_then p (cancellable_batch s event_id batch_id w.db) (cancel_locked now s.user) w
