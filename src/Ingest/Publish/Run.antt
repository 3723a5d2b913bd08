-- ===== src/Ingest/Publish/Run.antt =====
-- The publication of one photo, and the witness of the theorem on its repetition.
use openfotos_platform.Ingest.Publish.Again.{commit_publication_snapshot-repeats}
use openfotos_platform.Prelude.{◌=ᵗ◌, false, ◌≡◌, refl, ok, some, ◌∷◌, [], any, keep, total}
use openfotos_platform.States.{ContributionState, UploadObjectState, Variant, EventState}
use openfotos_platform.Models.{
  decrease, satisfies_constraints, IngestionManifest, Db, FaceAnalysisState,
}
use openfotos_platform.Samples.{put_document, plain, busy, upload}
use openfotos_platform.Ingest.Status.{publication_status}
use openfotos_platform.Ingest.Rows.{World}
use openfotos_platform.Ingest.Publish.{
  store_and_publish, publication_checks, publish_rows, store_document, publish_rows,
  publication_checks, store_and_publish, leave_out, commit_publication_snapshot, snapshot_document,
  manifest_of, ingestion_manifest_key,
}

abbrev finished : Db
finished =
    record (busy ContributionState.complete
      (upload 60 400 Variant.original UploadObjectState.verified
        ∷ upload 60 30 Variant.preview UploadObjectState.verified
        ∷ upload 60 10 Variant.thumbnail UploadObjectState.verified
        ∷ [])
      400 1 400 1) {
        faces =
            record {
              asset = 60;
              state = FaceAnalysisState.indexed;
              source_sha256 = 60 ∷ [];
              model_id = [];
            }
            ∷ [];
        policy =
            some
              (record { id = 71; enabled = false; derivative_profile_id = []; confirmed_by = 20 });
      }

abbrev finished_world : World plain
finished_world = record { db = finished; bucket = [] }

abbrev snapshot : IngestionManifest
snapshot =
    manifest_of (snapshot_document (leave_out 20 finished)) 1 (ingestion_manifest_key plain 1 1)
      (1 ∷ []) 9

first_publication : (commit_publication_snapshot plain 9 20 finished_world).0 ≡ ok snapshot
unfolding commit_publication_snapshot store_and_publish publication_checks publish_rows
    publication_status keep any ◌=ᵗ◌ store_document put_document decrease total
    satisfies_constraints snapshot_document
first_publication = refl

commit_publication_snapshot-repeats_example :
    let w' = (commit_publication_snapshot plain 9 20 finished_world).1 in
    (w'.db.event.state ≡ EventState.published)
    × (commit_publication_snapshot plain 50 20 w' ≡ (ok snapshot, w'))
commit_publication_snapshot-repeats_example =
    commit_publication_snapshot-repeats plain 9 50 20 20 finished_world snapshot first_publication
