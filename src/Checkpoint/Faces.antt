-- ===== src/Checkpoint/Faces.antt =====
-- The checkpoints of the face analysis. Counts are naturals, so a count below zero is not checked for.
pub mod Counts
use openfotos_platform.Prelude.{
  ℕ, ◌+◌, Bool, true, false, not, ◌&&◌, ◌||◌, Option, none, some, List, [], ◌∷◌, Text, Result, ok,
  err, or_raise, raise_if, ◌>>=◌, ◌>>◌, ◌==◌, any, find, keep, update, if◌then◌else◌, sort_by,
  text_then_id, text_before, ◌=ᵗ◌, length, ltb,
}
use openfotos_platform.Checkpoint.{LocalFaceState, FaceRow, Store, StoreError, update_or_raise}
use openfotos_platform.Checkpoint.Batches.{get_batch}
use openfotos_platform.Checkpoint.Pending.{insert_faces, owned_by}
use openfotos_platform.Checkpoint.Previews.{path_of, attempted, error_or_none}

-- `IN ('indexed', 'no_usable_face')`
abbrev pub is_analysed : LocalFaceState → Bool
is_analysed LocalFaceState.indexed = true
is_analysed LocalFaceState.no_usable_face = true
is_analysed _ = false

abbrev pub is_analysis_over : LocalFaceState → Bool
is_analysis_over LocalFaceState.excluded = true
is_analysis_over f = is_analysed f

unfoldable pub ensure_face_analysis_checkpoints : (batch : ℕ) → Store → Result StoreError Store
unfolding get_batch
ensure_face_analysis_checkpoints batch s = get_batch batch s >>= (λ b. ok (insert_faces batch s))

unfoldable pub list_face_analysis_checkpoints : (batch : ℕ) → Store → List FaceRow
list_face_analysis_checkpoints batch s =
    sort_by (λ f g. text_then_id (path_of s.items f.item) f.item (path_of s.items g.item) g.item)
      (keep (λ f. owned_by batch s f.item) s.faces)

unfoldable pub get_face_analysis_checkpoint : (item : ℕ) → Store → Result StoreError FaceRow
get_face_analysis_checkpoint item s =
    or_raise StoreError.unknown_face_analysis (find (λ f. f.item == item) s.faces)

abbrev pub updated_face :
    (now : ℕ)
    → LocalFaceState
    → (error : Option Text) → (detected usable : ℕ) → (increment : Bool) → FaceRow
    → FaceRow
updated_face now state error detected usable increment f = record f {
  state = state;
  attempt_count = attempted increment f.attempt_count;
  last_error_code = error;
  detected_face_count = detected;
  usable_face_count = usable;
  completed_at = if is_analysis_over state then some now else none;
}

-- `_update_face_analysis`
unfoldable pub update_face_analysis :
    (now item : ℕ)
    → LocalFaceState
    → (error : Option Text) → (detected usable : ℕ) → (increment : Bool) → Store
    → Result StoreError Store
update_face_analysis now item state error detected usable increment s = do
  rows ←
      update_or_raise StoreError.unknown_face_analysis (λ f. f.item == item)
        (updated_face now state error detected usable increment) s.faces
  ok (record s { faces = rows })

abbrev pub mark_face_analysis_started : (now item : ℕ) → Store → Result StoreError Store
mark_face_analysis_started now item s =
    update_face_analysis now item LocalFaceState.processing none 0 0 true s

abbrev pub mark_face_analysis_failed :
    (now item : ℕ) → (error_code : Text) → (conflict : Bool) → Store → Result StoreError Store
mark_face_analysis_failed now item error_code conflict s =
    update_face_analysis now item
      (if conflict then LocalFaceState.conflict else LocalFaceState.failed) (some error_code) 0 0
      false s

abbrev pub is_indexed : LocalFaceState → Bool
is_indexed LocalFaceState.indexed = true
is_indexed _ = false

abbrev pub differ : Bool → Bool → Bool
differ true b = not b
differ false b = b

unfoldable pub mark_face_analysis_complete :
    (now item : ℕ) → LocalFaceState → (detected usable : ℕ) → Store → Result StoreError Store
unfolding update_face_analysis
mark_face_analysis_complete now item state detected usable s = do
  raise_if (not (is_analysed state)) StoreError.face_not_terminal
  raise_if (ltb detected usable || differ (is_indexed state) (ltb 0 usable)) StoreError.face_counts
  update_face_analysis now item state none detected usable false s

-- What the server says of an analysis.
unfoldable pub sync_face_analysis :
    (now item : ℕ)
    → LocalFaceState
    → (attempt_count : ℕ) → (error_code : Text) → (detected usable : ℕ) → Store
    → Result StoreError Store
sync_face_analysis now item state attempt_count error_code detected usable s = do
  rows ←
      update_or_raise StoreError.unknown_face_analysis (λ f. f.item == item)
        (λ f. record f {
          state = state;
          attempt_count = attempt_count;
          last_error_code = error_or_none error_code;
          detected_face_count = detected;
          usable_face_count = usable;
          completed_at = if is_analysed state then some now else none;
        })
        s.faces
  ok (record s { faces = rows })

abbrev pub mark_face_analysis_excluded : (now item : ℕ) → Store → Result StoreError Store
mark_face_analysis_excluded now item s =
    update_face_analysis now item LocalFaceState.excluded none 0 0 false s

-- `bool(rows) and all(...)`
unfoldable pub face_analysis_complete : (batch : ℕ) → Store → Bool
unfolding list_face_analysis_checkpoints
face_analysis_complete batch s =
    let rows = list_face_analysis_checkpoints batch s in
    not (length rows == 0) && not (any (λ f. not (is_analysis_over f.state)) rows)
