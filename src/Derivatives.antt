-- ===== src/Derivatives.antt =====
-- The derivative objects of apps/server/src/openfotos_server/events/derivative_services.py: their
-- verification and the gallery's readiness.
pub mod Revival
pub mod Readiness
pub mod Pairs
pub mod Complete
pub mod Leases
pub mod Failures
pub mod Examples
use openfotos_platform.Prelude.{
  ℕ, ◌+◌, ◌*◌, Bool, true, false, not, ◌&&◌, ◌||◌, Option, none, some, List, [], ◌∷◌, ◌++◌, Text,
  Result, ok, err, or_raise, raise_if, ◌>>=◌, ◌>>◌, ◌==◌, ◌=ᵗ◌, min, max, any, find, keep, replace,
  update, length, if◌then◌else◌,
}
use openfotos_platform.States.{
  EventState, UploadObjectState, IngestionManifestState, Variant, ◌=ˢ◌, one_of, is_committed,
}
use openfotos_platform.Lifecycle.{state_for_derivative_readiness}
use openfotos_platform.Keys.{asset_key, codes}
use openfotos_platform.Models.{
  Code, Event, DesktopSession, Asset, AssetObject, PreviewPolicy, IngestionManifest, Db, AuditEntry,
  record_audit, save_event, is_set,
}
use openfotos_platform.Platform.{Platform, Head}
use openfotos_platform.Ingest.Rows.{
  World, is_original, is_verified, is_original_of, is_session_installation, sub_event_archived,
  event_for_session, before_semicolon, is_checksum, and_then,
}
use openfotos_platform.Ingest.Status.{is_derivative, is_asset_of}
use openfotos_platform.Ingest.Publish.{current_manifest}

-- `asset_for_processing_session` of ingestion_services.py, with no sub-event given.
unfoldable pub asset_for_processing_session :
    DesktopSession → (asset_id : ℕ) → Db → Result Code Asset
asset_for_processing_session s asset_id db = do
  asset ← or_raise Code.asset_not_found (find (λ a. a.id == asset_id) db.assets)
  installation ← or_raise Code.asset_not_found (find (is_session_installation s) db.installations)
  batch ← or_raise Code.row_missing (find (λ b. b.id == asset.batch) db.batches)
  raise_if (not (batch.installation == installation.id)) Code.asset_not_found
  raise_if (sub_event_archived batch.sub_event db) Code.sub_event_archived
  ok asset

abbrev pub same_variant : Variant → Variant → Bool
same_variant Variant.original Variant.original = true
same_variant Variant.preview Variant.preview = true
same_variant Variant.thumbnail Variant.thumbnail = true
same_variant _ _ = false

-- The object of one variant of an asset.
abbrev pub is_object : (asset : ℕ) → Variant → AssetObject → Bool
is_object asset v o = o.asset == asset && same_variant o.variant v

-- `upload.save(...)` for an object of an asset.
abbrev pub save_object : AssetObject → Db → Db
save_object o db = record db { objects = replace (is_object o.asset o.variant) o db.objects }

abbrev pub derivative_verified_row : (now : ℕ) → Head → AssetObject → AssetObject
derivative_verified_row now h o = record o {
  state = UploadObjectState.verified;
  etag = h.etag;
  verified_at = some now;
  failure_code = none;
}

abbrev pub derivative_failed_row : Code → AssetObject → AssetObject
derivative_failed_row c o = record o { state = UploadObjectState.failed; failure_code = some c }

-- The assets that the gallery shows: `refresh_derivative_readiness`.
unfoldable pub is_shown : Db → Asset → Bool
is_shown db a =
    not (is_set a.gallery_excluded_at)
    && any (λ b. b.id == a.batch && not (sub_event_archived b.sub_event db)) db.batches
    && any (λ o. is_original_of a.id o && is_verified o.state) db.objects

unfoldable pub shown_assets : Db → List Asset
shown_assets db = keep (is_shown db) db.assets

unfoldable pub verified_pairs : Db → ℕ
verified_pairs db = length (
    keep
      (λ o.
        is_asset_of (shown_assets db) o.asset && (is_derivative o.variant && is_verified o.state))
      db.objects)

-- Is the event's current manifest committed, and of the current generation?
unfoldable pub manifest_is_current : Db → Bool
manifest_is_current db = elim (current_manifest db) [
  | none ↦ false
  | some m ↦ is_committed m.state && m.generation == db.event.intake_generation
]

-- The save of a readiness, with the audit entry of a state that changed by itself.
abbrev pub settle_readiness : (now : ℕ) → Bool → Option ℕ → Db → Result Code (Bool × Db)
settle_readiness now ready generation db = do
  let next = state_for_derivative_readiness db.event.state ready
  saved ←
      save_event now (record db.event { derivatives_ready_generation = generation; state = next })
        db
  ok (
    ready,
    if next =ˢ db.event.state
        then saved
        else record_audit (AuditEntry.automatic_state_change db.event.state next) saved,
  )

-- The gallery positions that a ready gallery assigns are not modelled.
unfoldable pub refresh_derivative_readiness : (now : ℕ) → Db → Result Code (Bool × Db)
refresh_derivative_readiness now db =
    if not (manifest_is_current db)
    then ok (false, db)
    else if length (shown_assets db) == 0
    then (do
      saved ← save_event now (record db.event { derivatives_ready_generation = none }) db
      ok (false, saved))
    else if not (verified_pairs db == length (shown_assets db) * 2)
    then settle_readiness now false none db
    else settle_readiness now true (some db.event.intake_generation) db

module _ (p : Platform) where
  open p use {Bucket, head, delete, md5_hex, lower}

  -- `_object_mismatch` of derivative_services.py
  unfoldable pub derivative_mismatch : AssetObject → Head → Option Code
  derivative_mismatch upload h =
      if not (h.content_length == upload.expected_bytes)
      then some Code.derivative_size_mismatch
      else if not (before_semicolon (lower h.content_type) =ᵗ upload.content_type)
      then some Code.derivative_content_type_mismatch
      else if not (is_checksum h.sha256 upload.sha256)
      then some Code.derivative_checksum_mismatch
      else if not (lower h.etag =ᵗ md5_hex upload.content_md5)
      then some Code.derivative_checksum_mismatch
      else none

  -- A mismatch removes the object; if that fails the row keeps its state.
  abbrev pub fail_derivative :
      Code → AssetObject → Bool × Bucket → World p → Result Code AssetObject × World p
  fail_derivative c o (true, b) w =
      (err c, record w { db = save_object (derivative_failed_row c o) w.db; bucket = b })
  fail_derivative c o (false, b) w = (err Code.object_store_unavailable, record w { bucket = b })

  -- The readiness is a transaction of its own, after the verification's: when it raises, so does the
  -- call, and the verification stays.
  abbrev pub after_refresh :
      AssetObject → Result Code (Bool × Db) → World p → Result Code AssetObject × World p
  after_refresh o (ok (ready, db')) w = (ok o, record w { db = db' })
  after_refresh o (err c) w = (err c, w)

  abbrev pub accept_derivative :
      (now : ℕ) → Head → AssetObject → World p → Result Code AssetObject × World p
  accept_derivative now h o w =
      let row = derivative_verified_row now h o in
      let db' =
        record_audit (AuditEntry.derivative_upload_verified o.asset o.variant)
          (save_object row w.db) in
      after_refresh row (refresh_derivative_readiness now db') (record w { db = db' })

  -- The row is read again under its lock, and written whatever its state is then.
  unfoldable pub settle_derivative :
      (now : ℕ) → Head → AssetObject → AssetObject → World p → Result Code AssetObject × World p
  settle_derivative now h upload locked w = elim (derivative_mismatch upload h) [
    | some c ↦ fail_derivative c locked (delete locked.object_key w.bucket) w
    | none ↦ accept_derivative now h locked w
  ]

  abbrev pub inspect_derivative :
      (now : ℕ) → AssetObject → Option (Option Head) → World p → Result Code AssetObject × World p
  inspect_derivative now upload none w = (err Code.object_store_unavailable, w)
  inspect_derivative now upload (some none) w = (err Code.derivative_missing, w)
  inspect_derivative now upload (some (some h)) w =
      and_then p
        (or_raise Code.row_missing (find (is_object upload.asset upload.variant) w.db.objects))
        (settle_derivative now h upload) w

  unfoldable pub find_derivative :
      DesktopSession → (event_id asset_id : ℕ) → Variant → Db → Result Code AssetObject
  find_derivative s event_id asset_id v db = do
    event ← event_for_session s event_id db
    asset ← asset_for_processing_session s asset_id db
    or_raise Code.derivative_not_found (find (is_object asset.id v) db.objects)

  abbrev pub verify_found : (now : ℕ) → AssetObject → World p → Result Code AssetObject × World p
  verify_found now upload w =
      if is_verified upload.state
      then (ok upload, w)
      else inspect_derivative now upload (head upload.object_key w.bucket) w

  unfoldable pub verify_derivative :
      DesktopSession
      → (event_id asset_id : ℕ) → Variant
      → (now : ℕ) → World p
      → Result Code AssetObject × World p
  verify_derivative s event_id asset_id v now w =
      and_then p (find_derivative s event_id asset_id v w.db) (verify_found now) w
