-- ===== src/Checkpoint/Previews.antt =====
-- The checkpoints of the derivatives: a preview and a thumbnail for each accepted file. Attempt counts
-- are naturals, so the check that one is not negative always passes.
use openfotos_platform.Prelude.{
  ℕ, ◌+◌, Bool, true, false, not, ◌&&◌, ◌||◌, Option, none, some, List, [], ◌∷◌, Text, Result, ok,
  err, or_raise, ◌>>=◌, ◌==◌, any, find, keep, if◌then◌else◌, sort_by, text_before, ◌=ᵗ◌, length,
}
use openfotos_platform.States.{Variant}
use openfotos_platform.Checkpoint.{
  LocalUploadState, ItemRow, DerivativeRow, Store, StoreError, update_or_raise,
}
use openfotos_platform.Checkpoint.Batches.{get_batch}
use openfotos_platform.Checkpoint.Pending.{
  same_variant, is_preview, is_thumbnail, insert_derivatives, owned_by,
}

-- `IN ('verified', 'excluded')`
abbrev pub is_settled : LocalUploadState → Bool
is_settled LocalUploadState.verified = true
is_settled LocalUploadState.excluded = true
is_settled _ = false

-- `_derivative_variant`
abbrev pub derivative_variant : Variant → Result StoreError Variant
derivative_variant Variant.original = err StoreError.not_a_derivative
derivative_variant v = ok v

unfoldable pub ensure_derivative_checkpoints : (batch : ℕ) → Store → Result StoreError Store
unfolding get_batch
ensure_derivative_checkpoints batch s = get_batch batch s >>= (λ b. ok (insert_derivatives batch s))

-- `ORDER BY` the path of the file, and the name of the variant: previews are before thumbnails.
abbrev pub path_of : List ItemRow → ℕ → Text
path_of [] item = []
path_of (i ∷ is) item =
    let rest = path_of is item in if i.id == item then i.normalized_path else rest

abbrev pub derivative_order : List ItemRow → DerivativeRow → DerivativeRow → Bool
derivative_order items d e =
    text_before (path_of items d.item) (path_of items e.item)
    || (path_of items d.item =ᵗ path_of items e.item
        && (is_preview d.variant || is_thumbnail e.variant))

unfoldable pub list_derivative_checkpoints : (batch : ℕ) → Store → List DerivativeRow
list_derivative_checkpoints batch s =
    sort_by (derivative_order s.items) (keep (λ d. owned_by batch s d.item) s.derivatives)

abbrev pub is_derivative_of : (item : ℕ) → Variant → DerivativeRow → Bool
is_derivative_of item v d = d.item == item && same_variant d.variant v

unfoldable pub get_derivative_checkpoint :
    (item : ℕ) → Variant → Store → Result StoreError DerivativeRow
get_derivative_checkpoint item v s = do
  parsed ← derivative_variant v
  or_raise StoreError.unknown_derivative (find (is_derivative_of item parsed) s.derivatives)

-- The columns that an update sets.
abbrev pub settled_at : LocalUploadState → (now : ℕ) → Option ℕ → Option ℕ
settled_at state now before = if is_settled state then some now else before

abbrev pub attempted : Bool → ℕ → ℕ
attempted increment n = if increment then n + 1 else n

abbrev pub updated_derivative :
    (now : ℕ)
    → LocalUploadState
    → (error : Option Text) → (increment : Bool) → DerivativeRow
    → DerivativeRow
updated_derivative now state error increment d = record d {
  state = state;
  attempt_count = attempted increment d.attempt_count;
  last_error_code = error;
  completed_at = settled_at state now d.completed_at;
}

-- `_update_derivative`
unfoldable pub update_derivative :
    (now item : ℕ)
    → Variant
    → LocalUploadState
    → (error : Option Text) → (increment : Bool) → Store
    → Result StoreError Store
update_derivative now item v state error increment s = do
  parsed ← derivative_variant v
  rows ←
      update_or_raise StoreError.unknown_derivative (is_derivative_of item parsed)
        (updated_derivative now state error increment) s.derivatives
  ok (record s { derivatives = rows })

abbrev pub mark_derivative_started : (now item : ℕ) → Variant → Store → Result StoreError Store
mark_derivative_started now item v s =
    update_derivative now item v LocalUploadState.uploading none true s

abbrev pub mark_derivative_failed :
    (now item : ℕ) → Variant → (error_code : Text) → Store → Result StoreError Store
mark_derivative_failed now item v error_code s =
    update_derivative now item v LocalUploadState.failed (some error_code) false s

abbrev pub mark_derivative_verified : (now item : ℕ) → Variant → Store → Result StoreError Store
mark_derivative_verified now item v s =
    update_derivative now item v LocalUploadState.verified none false s

-- `error_code or None`
abbrev pub error_or_none : Text → Option Text
error_or_none [] = none
error_or_none (c ∷ cs) = some (c ∷ cs)

-- What the server says of a derivative.
unfoldable pub sync_derivative :
    (now item : ℕ)
    → Variant
    → LocalUploadState
    → (attempt_count : ℕ) → (error_code : Text) → Store
    → Result StoreError Store
sync_derivative now item v state attempt_count error_code s = do
  parsed ← derivative_variant v
  rows ←
      update_or_raise StoreError.unknown_derivative (is_derivative_of item parsed)
        (λ d. record d {
          state = state;
          attempt_count = attempt_count;
          last_error_code = error_or_none error_code;
          completed_at = settled_at state now none;
        })
        s.derivatives
  ok (record s { derivatives = rows })

-- A transaction that raises after others were committed leaves what they wrote.
abbrev pub committed : Store → Result StoreError Store → Result StoreError (Unit {0}) × Store
committed before (ok s) = (ok tt, s)
committed before (err e) = (err e, before)

-- What follows a transaction that was committed.
abbrev pub after_commit :
    Store
    → Result StoreError Store
    → (Store → Result StoreError (Unit {0}) × Store)
    → Result StoreError (Unit {0}) × Store
after_commit before (ok s) next = next s
after_commit before (err e) next = (err e, before)

-- One transaction for the previews and one for the thumbnails.
unfoldable pub mark_derivatives_excluded :
    (now item : ℕ) → Store → Result StoreError (Unit {0}) × Store
unfolding update_derivative
mark_derivatives_excluded now item s =
    after_commit s
      (update_derivative now item Variant.preview LocalUploadState.excluded none false s)
      (λ w.
        committed w
          (update_derivative now item Variant.thumbnail LocalUploadState.excluded none false w))

-- `bool(rows) and all(...)`
unfoldable pub derivatives_complete : (batch : ℕ) → Store → Bool
unfolding list_derivative_checkpoints
derivatives_complete batch s =
    let rows = list_derivative_checkpoints batch s in
    not (length rows == 0) && not (any (λ d. not (is_settled d.state)) rows)
