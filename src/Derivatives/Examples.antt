-- ===== src/Derivatives/Examples.antt =====
-- A thumbnail that was left out of a publication, and the witnesses of the theorems on derivatives.
use openfotos_platform.Ingest.Exclude.{release, cancel_rows}
use openfotos_platform.Derivatives.Revival.{
  cancel_rows-over_release, stray_bytes, settle_derivative-revives,
}
use openfotos_platform.Derivatives.Pairs.{are_distinct_assets, are_distinct_objects}
use openfotos_platform.Derivatives.Complete.{
  refresh-completes, is_gallery_complete, is_manifest_committed, shows_photo, settled_state,
}
use openfotos_platform.States.{EventState, IngestionManifestState}
use openfotos_platform.Finalize.{prepared_manifest}
use openfotos_platform.Ingest.Counters.{live_bytes, CountersExact}
use openfotos_platform.Derivatives.{
  save_event, Result, UploadObjectState, is_object, refresh_derivative_readiness, Code, Variant,
  derivative_mismatch, settle_derivative,
}
use openfotos_platform.Models.{
  save_event, decrease, satisfies_constraints, satisfies_constraints, decrease, Db, AssetObject,
}
use openfotos_platform.Prelude.{
  any, none, ◌&&◌, if◌then◌else◌, ◌+◌, find, find, ◌≡◌, refl, true, ok, err, some, arith, ◌∷◌, [],
  total,
}
use openfotos_platform.States.{ContributionState}
use openfotos_platform.Samples.{without, plain, busy, upload, batch, bad_head}
use openfotos_platform.Ingest.Rows.{World}

-- A batch whose original is excluded, with a thumbnail that a late verification made failed.
abbrev revived : Db
revived =
    busy ContributionState.not_included
      (upload 60 400 Variant.original UploadObjectState.excluded
        ∷ upload 60 30 Variant.thumbnail UploadObjectState.failed
        ∷ upload 61 300 Variant.original UploadObjectState.reserved
        ∷ [])
      300 1 0 0

revived-exact : CountersExact revived
unfolding total
revived-exact = ground arith

-- A photo with its preview and its thumbnail, in an event whose manifest is committed.
abbrev derived : Db
derived =
    let db =
      busy ContributionState.complete
        (upload 60 400 Variant.original UploadObjectState.verified
          ∷ upload 60 30 Variant.preview UploadObjectState.verified
          ∷ upload 60 10 Variant.thumbnail UploadObjectState.verified
          ∷ [])
        400 1 400 1 in
    record db {
      event = record db.event {
        state = EventState.processing;
        current_ingestion_manifest = some 1;
      };
      manifests =
          record (prepared_manifest plain db) { state = IngestionManifestState.committed } ∷ [];
    }

derived-exact : CountersExact derived
unfolding total
derived-exact = ground arith

derived_complete : is_gallery_complete derived ≡ true
unfolding any find prepared_manifest
derived_complete = refl

derived_objects : are_distinct_objects derived.objects ≡ true
unfolding any
derived_objects = refl

derived_assets : are_distinct_assets derived.assets ≡ true
unfolding any
derived_assets = refl

refresh-completes_example :
    (db' : Db) × (refresh_derivative_readiness 9 derived ≡ ok (is_gallery_complete derived, db'))
    × (db'.event.derivatives_ready_generation ≡ (
        if is_gallery_complete derived
        then some derived.event.intake_generation
        else if is_manifest_committed derived
        then none
        else derived.event.derivatives_ready_generation))
    × (db'.event.state ≡ (
        if is_manifest_committed derived && shows_photo derived
        then settled_state (is_gallery_complete derived) derived.event.state
        else derived.event.state))
    × CountersExact db'
refresh-completes_example = refresh-completes 9 derived derived-exact derived_assets derived_objects

abbrev thumbnail : AssetObject
thumbnail = upload 60 30 Variant.thumbnail UploadObjectState.excluded

-- The row as it was read before its contribution was left out.
abbrev read_thumbnail : AssetObject
read_thumbnail = upload 60 30 Variant.thumbnail UploadObjectState.reserved

abbrev thumbnail_world : World plain
thumbnail_world = record {
  db =
      busy ContributionState.not_included
        (upload 60 400 Variant.original UploadObjectState.excluded ∷ thumbnail ∷ []) 0 0 0 0;
  bucket = [];
}

thumbnail_mismatch :
    derivative_mismatch plain read_thumbnail bad_head ≡ some Code.derivative_size_mismatch
unfolding derivative_mismatch
thumbnail_mismatch = refl

thumbnail_deleted : plain.delete thumbnail.object_key thumbnail_world.bucket ≡ (true, [])
unfolding without
thumbnail_deleted = refl

thumbnail_found :
    find (is_object thumbnail.asset thumbnail.variant) thumbnail_world.db.objects ≡ some thumbnail
unfolding find
thumbnail_found = refl

settle_derivative-revives_example :
    let (answer, w') =
      settle_derivative plain 9 bad_head read_thumbnail thumbnail thumbnail_world in
    (answer ≡ err Code.derivative_size_mismatch)
    × (w'.bucket ≡ [])
    × (row : AssetObject) × (find (is_object thumbnail.asset thumbnail.variant) w'.db.objects
        ≡ some row)
    × (row.state ≡ UploadObjectState.failed)
    × (row.failure_code ≡ some Code.derivative_size_mismatch)
settle_derivative-revives_example =
    settle_derivative-revives plain 9 bad_head Code.derivative_size_mismatch read_thumbnail
      thumbnail [] thumbnail_world thumbnail_mismatch thumbnail_deleted thumbnail_found

-- The same rows beside an original of another batch.
abbrev crowded : Db
crowded = record revived {
  event = record revived.event { reserved_original_bytes = 800; reserved_original_count = 2 };
  objects =
      record (upload 62 500 Variant.original UploadObjectState.reserved) { batch = 51 }
      ∷ revived.objects;
}

crowded-exact : CountersExact crowded
unfolding total
crowded-exact = ground arith

abbrev ok_or : Db → Result Code Db → Db
ok_or db (ok db') = db'
ok_or db (err c) = db

abbrev cancelled : Db
cancelled = ok_or crowded (cancel_rows 9 20 (batch ContributionState.not_included) crowded)

crowded-cancelled : cancel_rows 9 20 (batch ContributionState.not_included) crowded ≡ ok cancelled
unfolding cancel_rows release decrease save_event satisfies_constraints total
crowded-cancelled = refl

cancel_rows-over_release_example :
    total live_bytes cancelled.objects
    ≡ cancelled.event.reserved_original_bytes + stray_bytes 50 crowded.objects
cancel_rows-over_release_example =
    cancel_rows-over_release 9 20 (batch ContributionState.not_included) crowded cancelled
      crowded-exact crowded-cancelled
