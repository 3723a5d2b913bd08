-- ===== src/Ingest/Verify.antt =====
-- `verify_uploaded_object` of ingestion_services.py. The object store is read before the rows are
-- locked, so `verify_locked`, the locked part, is a function of its own: between the two, other
-- requests may have changed the database.
use openfotos_platform.Prelude.{
  ℕ, ◌+◌, Option, none, some, Bool, false, Result, ok, err, or_raise, ◌>>=◌, find, if◌then◌else◌,
}
use openfotos_platform.States.{UploadObjectState}
use openfotos_platform.Models.{
  Code, Event, DesktopSession, AssetObject, Db, AuditEntry, record_audit, save_event,
}
use openfotos_platform.Platform.{Platform, Head}
use openfotos_platform.Ingest.Rows.{
  World, is_verified, is_excluded, is_original_of, event_for_session, manageable_upload,
  save_original, complete_batch_if_terminal, object_mismatch, delete_unverified_object,
}

-- The row after a match and after a mismatch.
abbrev pub verified_row : (now : ℕ) → Head → AssetObject → AssetObject
verified_row now h o = record o {
  state = UploadObjectState.verified;
  etag = h.etag;
  verified_at = some now;
  failure_code = none;
}

abbrev pub failed_row : Code → AssetObject → AssetObject
failed_row c o = record o {
  state = UploadObjectState.failed;
  failure_code = some c;
  lease_expires_at = none;
}

abbrev pub count_verified : AssetObject → Event → Event
count_verified o e = record e {
  verified_original_bytes = e.verified_original_bytes + o.expected_bytes;
  verified_original_count = e.verified_original_count + 1;
}

-- The writes for an object that matches its manifest.
unfoldable pub accept_upload : (now : ℕ) → Head → AssetObject → Db → Result Code Db
unfolding save_event complete_batch_if_terminal
accept_upload now h locked db = do
  saved ←
      save_event now (count_verified locked db.event) (save_original (verified_row now h locked) db)
  ok (complete_batch_if_terminal locked.batch now saved)

module _ (p : Platform) where
  open p use {Bucket, head}

  -- A transaction's result beside the world that it leaves: a raise keeps the database.
  abbrev pub commit_or_keep :
      AssetObject → Result Code Db → World p → Result Code AssetObject × World p
  commit_or_keep o (ok db') w = (ok o, record w { db = db' })
  commit_or_keep o (err c) w = (err c, w)

  -- The object of an excluded original is removed before the request is refused.
  unfoldable pub refuse_excluded : AssetObject → World p → Result Code AssetObject × World p
  unfolding delete_unverified_object
  refuse_excluded o w =
      let (removed, bucket') = delete_unverified_object p o.object_key w.bucket in
      (removed >>= (λ _. err Code.asset_excluded), record w { bucket = bucket' })

  -- A mismatch: the object is removed, the row fails, and both are kept although the request raises.
  abbrev pub keep_failure :
      Code → AssetObject → Result Code (Unit {0}) → World p → Result Code AssetObject × World p
  keep_failure c o (ok done) w = (err c, record w { db = save_original (failed_row c o) w.db })
  keep_failure c o (err e) w = (err e, w)

  unfoldable pub reject_upload : Code → AssetObject → World p → Result Code AssetObject × World p
  unfolding delete_unverified_object
  reject_upload c o w =
      let (removed, bucket') = delete_unverified_object p o.object_key w.bucket in
      keep_failure c o removed (record w { bucket = bucket' })

  unfoldable pub settle_upload :
      (now : ℕ) → Head → AssetObject → World p → Result Code AssetObject × World p
  settle_upload now h o w = elim (object_mismatch p o h) [
    | some c ↦ reject_upload c o w
    | none ↦ commit_or_keep (verified_row now h o) (accept_upload now h o w.db) w
  ]

  -- The transaction: the row is read again, and the head that was read before is compared to it.
  unfoldable pub verify_locked :
      (now : ℕ) → Head → (asset_id : ℕ) → World p → Result Code AssetObject × World p
  unfolding settle_upload refuse_excluded
  verify_locked now h asset_id w =
      elim (or_raise Code.row_missing (find (is_original_of asset_id) w.db.objects)) [
        | err c ↦ (err c, w)
        | ok locked ↦
            if is_verified locked.state
            then (ok locked, w)
            else if is_excluded locked.state
            then refuse_excluded locked w
            else settle_upload now h locked w
      ]

  -- The audit entry of a verification that did not raise.
  abbrev pub audited :
      (asset_id : ℕ) → Result Code AssetObject × World p → Result Code AssetObject × World p
  audited asset_id (ok o, w) =
      (ok o, record w { db = record_audit (AuditEntry.asset_upload_verified asset_id) w.db })
  audited asset_id (err c, w) = (err c, w)

  -- A row that turned out to be verified is returned from inside the transaction, with no entry.
  unfoldable pub already_verified : (asset_id : ℕ) → Db → Bool
  already_verified asset_id db = elim (find (is_original_of asset_id) db.objects) [
    | none ↦ false
    | some o ↦ is_verified o.state
  ]

  abbrev pub inspect :
      (now asset_id : ℕ) → Option (Option Head) → World p → Result Code AssetObject × World p
  inspect now asset_id none w = (err Code.object_store_unavailable, w)
  inspect now asset_id (some none) w = (err Code.upload_missing, w)
  inspect now asset_id (some (some h)) w =
      let settled = verify_locked now h asset_id w in
      if already_verified asset_id w.db then settled else audited asset_id settled

  unfoldable pub verify_uploaded_object :
      DesktopSession → (event_id asset_id now : ℕ) → World p → Result Code AssetObject × World p
  unfolding verify_locked already_verified event_for_session manageable_upload
  verify_uploaded_object s event_id asset_id now w =
      elim (event_for_session s event_id w.db >>= (λ event. manageable_upload asset_id w.db)) [
        | err c ↦ (err c, w)
        | ok upload ↦
            if is_verified upload.state
            then (ok upload, w)
            else if is_excluded upload.state
            then refuse_excluded upload w
            else inspect now asset_id (head upload.object_key w.bucket) w
      ]
