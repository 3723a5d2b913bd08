-- ===== src/Checkpoint/Uploads.antt =====
-- The uploads of a reserved contribution, and how they move its state.
pub mod Settle
pub mod Complete
pub mod Reserved
use openfotos_platform.Prelude.{
  ℕ, ◌+◌, Bool, true, false, not, ◌&&◌, ◌||◌, Option, none, some, List, [], ◌∷◌, Text, Result, ok,
  err, or_raise, raise_if, ◌>>=◌, ◌>>◌, ◌==◌, any, find, keep, update, if◌then◌else◌, sort_by,
  text_then_id, text_before, ◌=ᵗ◌,
}
use openfotos_platform.Checkpoint.{
  BatchState, BatchRow, LocalUploadState, UploadRow, Store, StoreError, update_or_raise,
}
use openfotos_platform.Checkpoint.Batches.{get_batch, set_batch_state}
use openfotos_platform.Checkpoint.Inventory.{row_count}
use openfotos_platform.Checkpoint.Pending.{
  owned_by, insert_uploads, insert_derivatives, insert_faces,
}
use openfotos_platform.Checkpoint.Previews.{
  is_settled, settled_at, attempted, path_of, committed, after_commit,
}
use openfotos_platform.Checkpoint.Faces.{mark_face_analysis_excluded}

abbrev pub is_reservable : BatchState → Bool
is_reservable BatchState.approved = true
is_reservable BatchState.reserved = true
is_reservable BatchState.uploading = true
is_reservable _ = false

-- `CASE WHEN state = 'approved' THEN 'reserved' ELSE state END`
abbrev pub reserved_state : BatchState → BatchState
reserved_state BatchState.approved = BatchState.reserved
reserved_state b = b

unfoldable pub mark_batch_reserved : (batch : ℕ) → Store → Result StoreError Store
unfolding get_batch insert_uploads insert_derivatives insert_faces
mark_batch_reserved batch s = do
  b ← get_batch batch s
  raise_if (not (is_reservable b.state)) StoreError.not_approved
  let moved = record s {
    batches =
        update (λ r. r.id == batch) (λ r. record r { state = reserved_state r.state }) s.batches;
  }
  ok (insert_faces batch (insert_derivatives batch (insert_uploads batch moved)))

abbrev pub mark_batch_not_included : (batch : ℕ) → Store → Result StoreError Store
mark_batch_not_included batch s = set_batch_state batch BatchState.not_included s

unfoldable pub list_upload_checkpoints : (batch : ℕ) → Store → List UploadRow
list_upload_checkpoints batch s =
    sort_by (λ u w. text_then_id (path_of s.items u.item) u.item (path_of s.items w.item) w.item)
      (keep (λ u. owned_by batch s u.item) s.uploads)

unfoldable pub get_upload_checkpoint : (item : ℕ) → Store → Result StoreError UploadRow
get_upload_checkpoint item s =
    or_raise StoreError.unknown_upload (find (λ u. u.item == item) s.uploads)

abbrev pub updated_upload :
    (now : ℕ)
    → LocalUploadState
    → (error : Option Text) → (increment : Bool) → UploadRow
    → UploadRow
updated_upload now state error increment u = record u {
  state = state;
  attempt_count = attempted increment u.attempt_count;
  last_error_code = error;
  completed_at = settled_at state now u.completed_at;
}

-- `_update_upload`
unfoldable pub update_upload :
    (now item : ℕ)
    → LocalUploadState
    → (error : Option Text) → (increment : Bool) → Store
    → Result StoreError Store
update_upload now item state error increment s = do
  rows ←
      update_or_raise StoreError.unknown_upload (λ u. u.item == item)
        (updated_upload now state error increment) s.uploads
  ok (record s { uploads = rows })

abbrev pub is_complete : BatchState → Bool
is_complete BatchState.complete = true
is_complete _ = false

abbrev pub is_not_included : BatchState → Bool
is_not_included BatchState.not_included = true
is_not_included _ = false

-- `UPDATE batches ... WHERE id = ... AND state != 'complete'`
abbrev pub to_uploading : (item : ℕ) → Store → Store
to_uploading item s = record s {
  batches =
      update (λ b. owned_by b.id s item && not (is_complete b.state))
        (λ b. record b { state = BatchState.uploading }) s.batches;
}

unfoldable pub mark_upload_started : (now item : ℕ) → Store → Result StoreError Store
unfolding update_upload
mark_upload_started now item s =
    update_upload now item LocalUploadState.uploading none true s
    >>= (λ w. ok (to_uploading item w))

abbrev pub mark_upload_failed :
    (now item : ℕ) → (error_code : Text) → Store → Result StoreError Store
mark_upload_failed now item error_code s =
    update_upload now item LocalUploadState.failed (some error_code) false s

-- Does an upload of the contribution remain?
unfoldable pub has_remaining : (batch : ℕ) → Store → Bool
has_remaining batch s = any (λ u. owned_by batch s u.item && not (is_settled u.state)) s.uploads

-- `_refresh_batch_upload_state`
unfoldable pub refresh_batch_upload_state : (item : ℕ) → Store → Result StoreError Store
unfolding has_remaining
refresh_batch_upload_state item s = do
  i ← or_raise StoreError.unknown_item (find (λ i. i.id == item) s.items)
  let state = if has_remaining i.batch s then BatchState.uploading else BatchState.complete
  ok (record s {
    batches =
        update (λ b. b.id == i.batch && not (is_not_included b.state))
          (λ b. record b { state = state }) s.batches;
  })

unfoldable pub mark_upload_verified : (now item : ℕ) → Store → Result StoreError (Unit {0}) × Store
unfolding update_upload refresh_batch_upload_state
mark_upload_verified now item s =
    after_commit s (update_upload now item LocalUploadState.verified none false s)
      (λ w. committed w (refresh_batch_upload_state item w))

-- `suppress(KeyError)`
abbrev pub unless_unknown : Store → Result StoreError Store → Store
unless_unknown before (ok s) = s
unless_unknown before (err e) = before

unfoldable pub mark_upload_excluded : (now item : ℕ) → Store → Result StoreError (Unit {0}) × Store
unfolding update_upload refresh_batch_upload_state
mark_upload_excluded now item s =
    after_commit s (update_upload now item LocalUploadState.excluded none false s) (λ w.
      let excluded = unless_unknown w (mark_face_analysis_excluded now item w) in
      committed excluded (refresh_batch_upload_state item excluded))
