-- ===== src/Finalize/Examples.antt =====
-- The finalization of an event with one photo, and the witness of the theorem on finalizations.
use openfotos_platform.Finalize.Current.{finalize_ingestion-current}
use openfotos_platform.Samples.{session, plain, busy, upload, put_document}
use openfotos_platform.States.{ContributionState, IntakeState, UploadObjectState, Variant}
use openfotos_platform.Prelude.{◌∷◌, [], refl, ◌≡◌, ap, ◌≡◌, any, find, keep, update, total, ◌=ᵗ◌}
use openfotos_platform.Models.{
  Db, IngestionManifest, AuditEntry, record_audit, save_event, satisfies_constraints,
}
use openfotos_platform.FaceIndex.{ready_faces}
use openfotos_platform.Ingest.Rows.{sub_event_archived, World, event_for_session}
use openfotos_platform.Ingest.Publish.{current_manifest}
use openfotos_platform.Lifecycle.{state_for_finalized_ingestion, state_for_derivative_readiness}
use openfotos_platform.Derivatives.{
  refresh_derivative_readiness, manifest_is_current, shown_assets, is_shown, verified_pairs,
}
use openfotos_platform.FaceIndex.{refresh_face_index_readiness}
use openfotos_platform.Finalize.{
  ok, some, [], committed_row, prepared_manifest, finalized_manifest, finalization_checks,
  commit_finalization, get_manifest, prepare, store_manifest, refresh_readiness, finish,
  finalize_ingestion,
}

abbrev closed_intake : Db
closed_intake =
    let db =
      busy ContributionState.complete
        (upload 60 400 Variant.original UploadObjectState.verified ∷ []) 400 1 400 1 in
    record db { event = record db.event { intake_state = IntakeState.closed } }

abbrev closed_world : World plain
closed_world = record { db = closed_intake; bucket = [] }

-- Another request leaves an audit entry while the document is stored.
abbrev another_request : World plain → World plain
another_request w = record w { db = record_audit (AuditEntry.asset_upload_verified 60) w.db }

abbrev committed_manifest : IngestionManifest
committed_manifest = committed_row 9 (prepared_manifest plain closed_intake)

finalized :
    (finalize_ingestion plain session 1 9 another_request closed_world).0 ≡ ok committed_manifest
unfolding finalize_ingestion prepare event_for_session finalized_manifest finalization_checks
    get_manifest finish store_manifest commit_finalization refresh_readiness
    refresh_derivative_readiness refresh_face_index_readiness manifest_is_current shown_assets
    is_shown verified_pairs current_manifest state_for_finalized_ingestion
    state_for_derivative_readiness save_event satisfies_constraints any find keep update total ◌=ᵗ◌
    put_document prepared_manifest sub_event_archived ready_faces
finalized = refl

finalize_ingestion-current_example :
    let w' = (finalize_ingestion plain session 1 9 another_request closed_world).1 in
    (w'.db.event.intake_state ≡ IntakeState.closed)
    × (committed_manifest.generation ≡ w'.db.event.intake_generation)
    × (w'.db.event.current_ingestion_manifest ≡ some w'.db.event.intake_generation)
finalize_ingestion-current_example =
    finalize_ingestion-current plain session 1 9 another_request committed_manifest closed_world
      (finalize_ingestion plain session 1 9 another_request closed_world).1
      (ap (λ done. (done, (finalize_ingestion plain session 1 9 another_request closed_world).1))
        finalized)
