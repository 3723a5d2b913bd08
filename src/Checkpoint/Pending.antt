-- ===== src/Checkpoint/Pending.antt =====
-- The pending rows of a contribution's accepted files: an upload, two derivatives and a face analysis.
pub mod Ignore
use openfotos_platform.Prelude.{
  ℕ, ◌+◌, Bool, true, false, not, ◌&&◌, ◌||◌, Option, none, some, List, [], ◌∷◌, ◌++◌, map, Text,
  Result, ok, err, or_raise, raise_if, ◌>>=◌, ◌>>◌, ◌==◌, any, find, keep, update, if◌then◌else◌,
  sort_by, text_then_id, text_before, ◌=ᵗ◌,
}
use openfotos_platform.States.{Variant}
use openfotos_platform.Checkpoint.{
  BatchState, LocalUploadState, LocalFaceState, ItemRow, UploadRow, DerivativeRow, FaceRow, Store,
  StoreError, update_or_raise,
}
use openfotos_platform.Checkpoint.Batches.{get_batch}
use openfotos_platform.Checkpoint.Inventory.{is_accepted, row_count}

-- A row that the contribution's files own.
abbrev pub owned_by : (batch : ℕ) → Store → (item : ℕ) → Bool
owned_by batch s item = any (λ i. i.id == item && i.batch == batch) s.items

-- `SELECT id FROM inventory_items WHERE batch_id = ? AND status = 'accepted'`
abbrev pub accepted_items : (batch : ℕ) → Store → List ItemRow
accepted_items batch s = keep (λ i. i.batch == batch && is_accepted i) s.items

-- `INSERT OR IGNORE`: a row whose key is in the table is skipped.
unfoldable pub insert_or_ignore {ℓ} : {A : Type ℓ} → (A → A → Bool) → List A → List A → List A
insert_or_ignore same [] rows = rows
insert_or_ignore same (x ∷ xs) rows =
    insert_or_ignore same xs (if any (same x) rows then rows else rows ++ x ∷ [])

abbrev pub pending_upload : ItemRow → UploadRow
pending_upload i = record {
  item = i.id;
  state = LocalUploadState.pending;
  attempt_count = 0;
  last_error_code = none;
  completed_at = none;
}

abbrev pub pending_derivative : Variant → ItemRow → DerivativeRow
pending_derivative v i = record {
  item = i.id;
  variant = v;
  state = LocalUploadState.pending;
  attempt_count = 0;
  last_error_code = none;
  completed_at = none;
}

abbrev pub pending_face : ItemRow → FaceRow
pending_face i = record {
  item = i.id;
  state = LocalFaceState.pending;
  attempt_count = 0;
  last_error_code = none;
  detected_face_count = 0;
  usable_face_count = 0;
  completed_at = none;
}

abbrev pub is_preview : Variant → Bool
is_preview v = elim v [ Variant.preview ↦ true | _ ↦ false ]

abbrev pub is_thumbnail : Variant → Bool
is_thumbnail v = elim v [ Variant.thumbnail ↦ true | _ ↦ false ]

-- The members of DERIVATIVE_VARIANTS are the previews and the thumbnails.
abbrev pub same_variant : Variant → Variant → Bool
same_variant Variant.original w = not (is_preview w || is_thumbnail w)
same_variant Variant.preview w = is_preview w
same_variant Variant.thumbnail w = is_thumbnail w

abbrev pub same_derivative : DerivativeRow → DerivativeRow → Bool
same_derivative d e = d.item == e.item && same_variant d.variant e.variant

-- `CROSS JOIN`: two rows for each file.
abbrev pub both_variants : List ItemRow → List DerivativeRow
both_variants [] = []
both_variants (i ∷ is) =
    pending_derivative Variant.preview i ∷ pending_derivative Variant.thumbnail i ∷ both_variants is

-- The three statements of `mark_batch_reserved`, of which the last two are those of
-- `ensure_derivative_checkpoints` and `ensure_face_analysis_checkpoints`.
unfoldable pub insert_uploads : (batch : ℕ) → Store → Store
unfolding insert_or_ignore
insert_uploads batch s = record s {
  uploads =
      insert_or_ignore (λ u w. u.item == w.item) (map pending_upload (accepted_items batch s))
        s.uploads;
}

unfoldable pub insert_derivatives : (batch : ℕ) → Store → Store
unfolding insert_or_ignore
insert_derivatives batch s = record s {
  derivatives =
      insert_or_ignore same_derivative (both_variants (accepted_items batch s)) s.derivatives;
}

unfoldable pub insert_faces : (batch : ℕ) → Store → Store
unfolding insert_or_ignore
insert_faces batch s = record s {
  faces =
      insert_or_ignore (λ f g. f.item == g.item) (map pending_face (accepted_items batch s))
        s.faces;
}
