-- ===== src/Ingest/Publish.antt =====
-- `commit_publication_snapshot` of ingestion_services.py. One transaction: contributions that are not
-- complete are left out and their reservation is given back, the aggregate manifest is stored under an
-- immutable key, and the event becomes Published.
pub mod Again
pub mod Run
use openfotos_platform.Prelude.{
  ℕ, Bool, not, ◌&&◌, Option, none, some, List, [], ◌∷◌, ◌++◌, Text, Result, ok, err, or_raise,
  raise_if, ◌>>=◌, ◌>>◌, ◌==◌, any, find, keep, update, total, length, if◌then◌else◌,
}
use openfotos_platform.States.{
  EventState, IntakeState, ContributionState, UploadObjectState, IngestionManifestState, ◌=ˢ◌,
  one_of,
}
use openfotos_platform.Keys.{codes}
use openfotos_platform.Models.{
  Code, Event, ContributionBatch, AssetObject, IngestionManifest, ManifestDocument, Db, AuditEntry,
  record_audit, save_event, decrease,
}
use openfotos_platform.Platform.{Platform, Head, PutOutcome}
use openfotos_platform.Ingest.Rows.{
  World, is_original, is_verified, is_excluded, is_reserved_batch, is_complete_batch, is_checksum,
  sub_event_archived, and_then,
}
use openfotos_platform.Ingest.Status.{publication_status, has_policy, has_active_sub_event}
use openfotos_platform.Ingest.Manifest.{aggregate_manifest_document}

-- The checks of an event that is not published yet, in their order.
unfoldable pub publication_checks : Db → Result Code (Unit {0})
publication_checks db = do
  raise_if
      (one_of db.event.state (EventState.archived ∷ EventState.cancelled ∷ EventState.failed ∷ []))
      Code.event_not_publishable
  let status = publication_status db
  raise_if (status.included_photo_count == 0) Code.empty_manifest
  raise_if (not (status.expected_derivatives == status.verified_derivative_count))
      Code.derivatives_required
  raise_if (not (status.included_photo_count == status.terminal_face_count))
      Code.face_index_required
  raise_if (not (has_policy db)) Code.preview_policy_required
  raise_if (not (has_active_sub_event db)) Code.sub_event_required
  raise_if (any (λ m. m.generation == db.event.intake_generation) db.manifests)
      Code.publication_snapshot_exists
  ok tt

-- Is the batch one of those left out?
abbrev pub is_left_out : List ContributionBatch → ℕ → Bool
is_left_out batches batch = any (λ b. b.id == batch && is_reserved_batch b.state) batches

-- The originals that give back their reservation, and those of them that were verified.
abbrev pub is_dropped : List ContributionBatch → AssetObject → Bool
is_dropped batches o =
    is_left_out batches o.batch && (is_original o.variant && not (is_excluded o.state))

abbrev pub is_dropped_verified : List ContributionBatch → AssetObject → Bool
is_dropped_verified batches o = is_dropped batches o && is_verified o.state

abbrev pub sum_where : (AssetObject → Bool) → (AssetObject → ℕ) → List AssetObject → ℕ
sum_where p w objects = total (λ o. if p o then w o else 0) objects

abbrev pub left_out_row : (actor : ℕ) → AssetObject → AssetObject
left_out_row actor o = record o {
  state = UploadObjectState.excluded;
  lease_expires_at = none;
  failure_code = none;
  excluded_reason = codes "Event published before this contribution completed.";
  excluded_by = some actor;
}

-- The rows after the incomplete contributions are left out.
unfoldable pub leave_out : (actor : ℕ) → Db → Db
leave_out actor db = record db {
  faces =
      keep (λ f. not (any (λ a. a.id == f.asset && is_left_out db.batches a.batch) db.assets))
        db.faces;
  objects = update (λ o. is_left_out db.batches o.batch) (left_out_row actor) db.objects;
  batches =
      update (λ b. is_reserved_batch b.state)
        (λ b. record b { state = ContributionState.not_included }) db.batches;
}

-- The event's totals without what the left out contributions held.
unfoldable pub reduced : List ContributionBatch → List AssetObject → Event → Result Code Event
reduced batches objects e = do
  reserved_bytes ←
      decrease e.reserved_original_bytes
        (sum_where (is_dropped batches) (λ o. o.expected_bytes) objects)
  reserved_count ←
      decrease e.reserved_original_count (sum_where (is_dropped batches) (λ o. 1) objects)
  verified_bytes ←
      decrease e.verified_original_bytes
        (sum_where (is_dropped_verified batches) (λ o. o.expected_bytes) objects)
  verified_count ←
      decrease e.verified_original_count (sum_where (is_dropped_verified batches) (λ o. 1) objects)
  ok (record e {
    reserved_original_bytes = reserved_bytes;
    reserved_original_count = reserved_count;
    verified_original_bytes = verified_bytes;
    verified_original_count = verified_count;
  })

-- The complete batches under active sub-events.
abbrev pub is_published_batch : Db → ContributionBatch → Bool
is_published_batch db b = is_complete_batch b.state && not (sub_event_archived b.sub_event db)

unfoldable pub snapshot_document : Db → ManifestDocument
unfolding aggregate_manifest_document sub_event_archived
snapshot_document db = aggregate_manifest_document (is_published_batch db) db.event db

unfoldable pub manifest_of :
    ManifestDocument → (generation : ℕ) → Text → Text → (now : ℕ) → IngestionManifest
manifest_of document generation key sha256 now = record {
  generation = generation;
  state = IngestionManifestState.committed;
  object_key = key;
  content_sha256 = sha256;
  document = document;
  asset_count = document.summary.verified_asset_count;
  original_bytes = document.summary.verified_original_bytes;
  excluded_asset_count = document.summary.excluded_asset_count;
  committed_at = some now;
}

abbrev pub published_event : Event → Event
published_event e = record e {
  intake_state = IntakeState.closed;
  current_ingestion_manifest = some e.intake_generation;
  derivatives_ready_generation = some e.intake_generation;
  face_index_ready_generation = some e.intake_generation;
  state = EventState.published;
}

-- The manifest row, the event and the audit entry, once the document is stored.
unfoldable pub publish_rows :
    (now actor : ℕ) → IngestionManifest → Db → Result Code (IngestionManifest × Db)
unfolding reduced leave_out save_event
publish_rows now actor manifest db = do
  event ← reduced db.batches db.objects db.event
  let rows = leave_out actor db
  saved ←
      save_event now (published_event event)
        (record rows { manifests = rows.manifests ++ manifest ∷ [] })
  ok (
    manifest,
    record_audit
        (AuditEntry.publication_snapshot manifest.generation manifest.asset_count
          (length (keep (λ b. is_reserved_batch b.state) db.batches)))
        saved,
  )

-- The manifest that a published event points to.
unfoldable pub current_manifest : Db → Option IngestionManifest
current_manifest db = elim db.event.current_ingestion_manifest [
  | none ↦ none
  | some g ↦ find (λ m. m.generation == g) db.manifests
]

module _ (p : Platform) where
  open p use {Bucket, head, put_immutable, document_sha256, document_length, uuid_text, six_digits}

  -- `ingestion_manifest_key` of packages/storage/src/openfotos_storage/keys.py, for a positive generation.
  unfoldable pub ingestion_manifest_key : (event generation : ℕ) → Text
  ingestion_manifest_key event generation =
      codes "events/"
      ++ (uuid_text event
          ++ (codes "/manifests/generation-" ++ (six_digits generation ++ codes ".json")))

  -- A key that is taken holds this very document, or the publication is refused.
  abbrev pub same_document : ManifestDocument → Option (Option Head) → Result Code (Unit {0})
  same_document document none = err Code.object_store_unavailable
  same_document document (some none) = err Code.manifest_object_conflict
  same_document document (some (some h)) =
      if h.content_length == document_length document
        && is_checksum h.sha256 (document_sha256 document)
      then ok tt
      else err Code.manifest_object_conflict

  abbrev pub after_put :
      Text → ManifestDocument → PutOutcome × Bucket → Result Code (Unit {0}) × Bucket
  after_put key document (PutOutcome.stored, b) = (ok tt, b)
  after_put key document (PutOutcome.already_exists, b) = (same_document document (head key b), b)
  after_put key document (PutOutcome.failed, b) = (err Code.object_store_unavailable, b)

  unfoldable pub store_document : Text → ManifestDocument → Bucket → Result Code (Unit {0}) × Bucket
  store_document key document b =
      after_put key document (put_immutable key document (document_sha256 document) b)

  -- The result of the transaction beside the world that it leaves.
  abbrev pub commit_rows {ℓ} :
      {A : Type ℓ} → Result Code (A × Db) → World p → Result Code A × World p
  commit_rows (ok (a, db')) w = (ok a, record w { db = db' })
  commit_rows (err c) w = (err c, w)

  unfoldable pub store_and_publish :
      (now actor : ℕ) → World p → Result Code IngestionManifest × World p
  store_and_publish now actor w =
      let document = snapshot_document (leave_out actor w.db) in
      let generation = w.db.event.intake_generation in
      let key = ingestion_manifest_key w.db.event.id generation in
      let manifest = manifest_of document generation key (document_sha256 document) now in
      let (stored, bucket') = store_document key document w.bucket in
      commit_rows (stored >>= (λ _. publish_rows now actor manifest w.db))
        (record w { bucket = bucket' })

  unfoldable pub commit_publication_snapshot :
      (now actor : ℕ) → World p → Result Code IngestionManifest × World p
  commit_publication_snapshot now actor w =
      if w.db.event.state =ˢ EventState.published
      then (or_raise Code.publication_snapshot_missing (current_manifest w.db), w)
      else and_then p (publication_checks w.db) (λ _. store_and_publish now actor) w
