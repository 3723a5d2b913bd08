-- ===== src/Finalize.antt =====
-- `finalize_ingestion` of apps/server/src/openfotos_server/events/ingestion_services.py: a transaction
-- that prepares the manifest of a closed intake, the storing of its document, a transaction that
-- commits it, and the two refreshes of the event's readiness.
pub mod Current
pub mod Examples
use openfotos_platform.Lifecycle.{state_for_finalized_ingestion}
use openfotos_platform.Ingest.Reserve.{as_code}
use openfotos_platform.Ingest.Publish.{current_manifest, commit_rows, ingestion_manifest_key}
use openfotos_platform.Ingest.Rows.{
  is_original, is_verified, is_terminal, is_checksum, event_for_session, and_then, World,
}
use openfotos_platform.Ingest.Manifest.{aggregate_manifest_document}
use openfotos_platform.States.{is_open, ◌=ˢ◌, IngestionManifestState, EventState}
use openfotos_platform.Prelude.{
  ℕ, ◌>>◌, ◌++◌, ◌||◌, not, raise_if, find, any, update, List, [], ◌∷◌, or_raise, ◌&&◌, ◌>>=◌, none,
  err, ok, true, some, if◌then◌else◌, ◌==◌, Result, Bool, Option,
}
use openfotos_platform.Models.{
  AuditEntry, record_audit, save_event, Code, DesktopSession, Db, IngestionManifest,
}
use openfotos_platform.Platform.{Head, PutOutcome, Platform}
use openfotos_platform.Derivatives.{refresh_derivative_readiness}
use openfotos_platform.FaceIndex.{refresh_face_index_readiness}

-- What the first transaction leaves to do: nothing, or a manifest to store and to commit.
pub data Preparation : Type 0 where
  finished : IngestionManifest → Preparation
  to_commit : EventState → IngestionManifest → Preparation

abbrev pub has_generation : ℕ → IngestionManifest → Bool
has_generation g m = m.generation == g

-- `current and current.generation == intake_generation`, in the state Processing
unfoldable pub finalized_manifest : Db → Option IngestionManifest
finalized_manifest db =
    if db.event.state =ˢ EventState.processing
    then elim (current_manifest db) [
      | none ↦ none
      | some m ↦ if m.generation == db.event.intake_generation then some m else none
    ]
    else none

unfoldable pub finalization_checks : Db → Result Code EventState
finalization_checks db = do
  next ← as_code (state_for_finalized_ingestion db.event.state)
  raise_if (any (λ o. is_original o.variant && not (is_terminal o.state)) db.objects)
      Code.contributions_not_terminal
  raise_if (not (any (λ o. is_original o.variant && is_verified o.state) db.objects))
      Code.empty_manifest
  ok next

abbrev pub committed_row : (now : ℕ) → IngestionManifest → IngestionManifest
committed_row now m = record m { state = IngestionManifestState.committed; committed_at = some now }

-- The last transaction: the intake may have changed since the first one.
unfoldable pub commit_finalization :
    (now generation : ℕ) → EventState → Db → Result Code (IngestionManifest × Db)
commit_finalization now generation next db = do
  locked ← or_raise Code.row_missing (find (has_generation generation) db.manifests)
  raise_if (is_open db.event.intake_state || not (db.event.intake_generation == locked.generation))
      Code.stale_intake_generation
  saved ←
      save_event now
        (record db.event { current_ingestion_manifest = some locked.generation; state = next })
        (record db {
          manifests = update (has_generation locked.generation) (committed_row now) db.manifests;
        })
  ok (
    committed_row now locked,
    record_audit (AuditEntry.ingestion_finalized locked.generation) saved,
  )

module _ (p : Platform) where
  open p use {Bucket, head, put_immutable, document_sha256, document_length}

  unfoldable pub prepared_manifest : Db → IngestionManifest
  prepared_manifest db =
      let document = aggregate_manifest_document (λ b. true) db.event db in
      record {
        generation = db.event.intake_generation;
        state = IngestionManifestState.prepared;
        object_key = ingestion_manifest_key p db.event.id db.event.intake_generation;
        content_sha256 = document_sha256 document;
        document = document;
        asset_count = document.summary.verified_asset_count;
        original_bytes = document.summary.verified_original_bytes;
        excluded_asset_count = document.summary.excluded_asset_count;
        committed_at = none;
      }

  -- The manifest of the event's generation, which is made when there is none.
  unfoldable pub get_manifest : Db → IngestionManifest × Db
  get_manifest db = elim (find (has_generation db.event.intake_generation) db.manifests) [
    | some m ↦ (m, db)
    | none ↦ let m = prepared_manifest db in (m, record db { manifests = db.manifests ++ m ∷ [] })
  ]

  unfoldable pub prepare : DesktopSession → (event_id : ℕ) → Db → Result Code (Preparation × Db)
  prepare s event_id db = do
    event ← event_for_session s event_id db
    raise_if (is_open db.event.intake_state) Code.intake_open
    elim (finalized_manifest db) [
      | some m ↦ ok (Preparation.finished m, db)
      | none ↦ (do
        next ← finalization_checks db
        let (m, db') = get_manifest db
        ok (Preparation.to_commit next m, db'))
    ]

  -- A key that is taken holds this very document, or the finalization is refused.
  abbrev pub same_manifest : IngestionManifest → Option (Option Head) → Result Code (Unit {0})
  same_manifest m none = err Code.object_store_unavailable
  same_manifest m (some none) = err Code.manifest_object_conflict
  same_manifest m (some (some h)) =
      if h.content_length == document_length m.document && is_checksum h.sha256 m.content_sha256
      then ok tt
      else err Code.manifest_object_conflict

  abbrev pub after_put_manifest :
      IngestionManifest → PutOutcome × Bucket → Result Code (Unit {0}) × Bucket
  after_put_manifest m (PutOutcome.stored, b) = (ok tt, b)
  after_put_manifest m (PutOutcome.already_exists, b) = (same_manifest m (head m.object_key b), b)
  after_put_manifest m (PutOutcome.failed, b) = (err Code.object_store_unavailable, b)

  unfoldable pub store_manifest : IngestionManifest → Bucket → Result Code (Unit {0}) × Bucket
  store_manifest m b =
      after_put_manifest m (put_immutable m.object_key m.document m.content_sha256 b)

  -- Each refresh is a transaction of its own; when one raises, so does the call, and the manifest
  -- stays committed.
  unfoldable pub refresh_readiness :
      (now : ℕ) → IngestionManifest → World p → Result Code IngestionManifest × World p
  refresh_readiness now m w =
      let (derivatives, w1) = commit_rows p (refresh_derivative_readiness now w.db) w in
      and_then p derivatives
        (λ ready w2.
          let (faces, w3) = commit_rows p (refresh_face_index_readiness now w2.db) w2 in
          and_then p faces (λ done w4. (ok m, w4)) w3)
        w1

  -- `others` is what other requests do between the storing of the document and the last transaction.
  unfoldable pub finish :
      (now : ℕ) (others : World p → World p)
      → Preparation
      → World p
      → Result Code IngestionManifest × World p
  finish now others (Preparation.finished m) w = refresh_readiness now m w
  finish now others (Preparation.to_commit next m) w =
      let (stored, bucket') = store_manifest m w.bucket in
      and_then p stored
        (λ done w1.
          let (committed, w2) =
            commit_rows p (commit_finalization now m.generation next w1.db) w1 in
          and_then p committed (refresh_readiness now) w2)
        (others (record w { bucket = bucket' }))

  unfoldable pub finalize_ingestion :
      DesktopSession
      → (event_id now : ℕ) (others : World p → World p) → World p
      → Result Code IngestionManifest × World p
  finalize_ingestion s event_id now others w =
      let (prepared, w1) = commit_rows p (prepare s event_id w.db) w in
      and_then p prepared (finish now others) w1
