-- ===== src/Checkpoint/Examples.antt =====
-- The steps of one contribution on a desktop, and the witnesses of the checkpoint's theorems.
use openfotos_platform.Prelude.{
  ◌==◌, ◌≡◌, refl, true, some, List, [], ◌∷◌, ◌++◌, ok, err, total, arith, any, find, keep, update,
  insert_by, sort_by, ◌=ᵗ◌, succeeds, not, ◌&&◌, ltb,
}
use openfotos_platform.Keys.{codes}
use openfotos_platform.Checkpoint.{
  BatchState, EventCache, SelectionKind, Store, StoreError, UploadRow, LocalFaceState,
}
use openfotos_platform.Checkpoint.Events.{
  cache_event, get_event, upsert_sub_events, upsert_sub_event, sub_events_for, event_from_row,
  row_of_event,
}
use openfotos_platform.Checkpoint.Events.Snapshot.{
  cache_event-create_batch, cache_event-name_conflict,
}
use openfotos_platform.Checkpoint.Batches.{create_batch, add_selection, get_batch}
use openfotos_platform.Checkpoint.Approval.{
  approve_batch, approved_row, summary, summary_of_batch, no_counts, can_approve, is_needs_review,
}
use openfotos_platform.Checkpoint.Approval.Frozen.{approve_batch-succeeds, approve_batch-freezes}
use openfotos_platform.Checkpoint.Pending.{
  pending_face, insert_or_ignore, insert_uploads, insert_derivatives, insert_faces,
}
use openfotos_platform.Checkpoint.Faces.{
  sync_face_analysis, mark_face_analysis_complete, update_face_analysis,
}
use openfotos_platform.Checkpoint.Faces.Counts.{
  FaceSteps, FaceStep, FaceSteps-exact, FaceCountsExact,
}
use openfotos_platform.Checkpoint.Uploads.{mark_batch_reserved}
use openfotos_platform.Checkpoint.Uploads.Reserved.{mark_batch_reserved-repeats, IsReserved}
use openfotos_platform.Checkpoint.Uploads.Settle.{Settlement, settle_all}
use openfotos_platform.Checkpoint.Uploads.Complete.{settle_all-completes, state_of}
use openfotos_platform.Scanner.Samples.{
  plain_host, wedding, nothing, cached, created, selected, scanned, scanned_batch, approved_store,
  reserved_one, reserved_batch, photo_row, folder_path,
}

caching : cache_event plain_host wedding nothing ≡ ok cached
unfolding cache_event upsert_sub_events upsert_sub_event any update ◌=ᵗ◌
caching = refl

creation : create_batch plain_host 100 20 1 5 (codes "Ceremony") cached ≡ ok (20, created)
unfolding create_batch get_event find any keep sort_by insert_by
creation = refl

cache_event-create_batch_example : any (λ c. c.id == 5) wedding.sub_events ≡ true
cache_event-create_batch_example =
    cache_event-create_batch plain_host wedding nothing cached 100 20 5 (codes "Ceremony")
      (20, created) caching creation

-- The same event after the hall was renamed, and its name given to another sub-event that comes first.
abbrev renamed : EventCache
renamed = record wedding {
  sub_events =
      record { id = 6; name = codes "Hall"; position = 1 }
      ∷ record { id = 5; name = codes "Garden"; position = 2 }
      ∷ [];
}

hall_is_held :
    any (λ r. not (r.id == 6) && (r.event == 1 && r.name =ᵗ codes "Hall")) cached.sub_events ≡ true
unfolding any ◌=ᵗ◌
hall_is_held = refl

cache_event-name_conflict_example :
    cache_event plain_host renamed cached ≡ err StoreError.integrity_error
cache_event-name_conflict_example =
    cache_event-name_conflict plain_host renamed
      (record { id = 6; name = codes "Hall"; position = 1 })
      (record { id = 5; name = codes "Garden"; position = 2 } ∷ []) cached refl (ground arith)
      (ground arith) (ground arith) hall_is_held

selection :
    add_selection plain_host 101 40 20 folder_path SelectionKind.folder created ≡ ok (40, selected)
unfolding add_selection get_batch find any
selection = refl

scanned_known : get_batch 20 scanned ≡ ok scanned_batch
unfolding get_batch find
scanned_known = refl

abbrev cached_wedding : EventCache
cached_wedding = event_from_row (row_of_event plain_host wedding) cached

event_known : get_event 1 scanned ≡ ok cached_wedding
unfolding get_event find sub_events_for
event_known = refl

approve_batch-succeeds_example : succeeds (approve_batch 110 20 (codes "p") scanned) ≡ (
    is_needs_review scanned_batch.state
    && (can_approve (summary_of_batch scanned_batch no_counts scanned)
        && (cached_wedding.processing_profile_id =ᵗ codes "p"
            && not (
                ltb cached_wedding.storage_limit_bytes
                  (summary_of_batch scanned_batch no_counts scanned).accepted_bytes))))
approve_batch-succeeds_example =
    approve_batch-succeeds 110 20 (codes "p") scanned scanned_batch cached_wedding scanned_known
      event_known

approval : approve_batch 110 20 (codes "p") scanned ≡ ok approved_store
unfolding approve_batch summary get_batch get_event find keep any update total ◌=ᵗ◌
approval = refl

approve_batch-freezes_example :
    (can_approve (summary_of_batch scanned_batch no_counts scanned) ≡ true)
    × (get_batch 20 approved_store ≡ ok (approved_row 110 scanned_batch))
    × (add_selection plain_host 111 42 20 (codes "x") SelectionKind.file approved_store
        ≡ err StoreError.frozen_additions)
    × (approve_batch 111 20 (codes "p") approved_store ≡ err StoreError.not_scanned)
approve_batch-freezes_example =
    approve_batch-freezes 110 20 (codes "p") scanned approved_store scanned_batch plain_host 111 42
      (codes "x") SelectionKind.file scanned_known approval

reservation : mark_batch_reserved 20 approved_store ≡ ok reserved_one
unfolding mark_batch_reserved get_batch insert_uploads insert_derivatives insert_faces
    insert_or_ignore find keep any update
reservation = refl

mark_batch_reserved-repeats_example :
    IsReserved 20 reserved_one
    × ((new : List UploadRow) × (reserved_one.uploads ≡ approved_store.uploads ++ new))
    × (mark_batch_reserved 20 reserved_one ≡ ok reserved_one)
mark_batch_reserved-repeats_example =
    mark_batch_reserved-repeats 20 approved_store reserved_one reservation

reserved_known : get_batch 20 reserved_one ≡ ok reserved_batch
unfolding get_batch find
reserved_known = refl

photo_found : find (λ j. j.id == 30) reserved_one.items ≡ some photo_row
unfolding find
photo_found = refl

upload_there : any (λ u. u.item == 30) reserved_one.uploads ≡ true
unfolding any
upload_there = refl

settle_all-completes_example :
    state_of 20 (settle_all 120 (Settlement.exclude 31 ∷ Settlement.verify 30 ∷ []) reserved_one)
    ≡ some BatchState.complete
unfolding any
settle_all-completes_example =
    settle_all-completes 120 20 (Settlement.exclude 31 ∷ []) (Settlement.verify 30) reserved_one
      reserved_batch photo_row reserved_known refl photo_found refl upload_there refl

-- The photo's analysis is started, and finds two faces of which one is usable.
abbrev started : Store
started = record reserved_one {
  faces =
      record (pending_face photo_row) { state = LocalFaceState.processing; attempt_count = 1 } ∷ [];
}

abbrev indexed_one : Store
indexed_one = record reserved_one {
  faces =
      record (pending_face photo_row) {
        state = LocalFaceState.indexed;
        attempt_count = 1;
        detected_face_count = 2;
        usable_face_count = 1;
        completed_at = some 131;
      }
      ∷ [];
}

-- The server has one more of each.
abbrev synced_one : Store
synced_one = record reserved_one {
  faces =
      record (pending_face photo_row) {
        state = LocalFaceState.indexed;
        attempt_count = 1;
        detected_face_count = 3;
        usable_face_count = 2;
        completed_at = some 132;
      }
      ∷ [];
}

three_steps : FaceSteps reserved_one synced_one
unfolding mark_face_analysis_complete update_face_analysis sync_face_analysis any update
three_steps = FaceSteps.next (FaceStep.start {s' = started} 130 30 refl) (
    FaceSteps.next (FaceStep.finish {s' = indexed_one} 131 30 LocalFaceState.indexed 2 1 refl) (
      FaceSteps.next
        (FaceStep.sync {s' = synced_one} 132 30 LocalFaceState.indexed 1 [] 3 2 (omega arith) refl
          refl)
        FaceSteps.done))

reserved_exact : FaceCountsExact reserved_one
unfolding any
reserved_exact = refl

FaceSteps-exact_example : FaceCountsExact synced_one
FaceSteps-exact_example = FaceSteps-exact reserved_one synced_one three_steps reserved_exact
