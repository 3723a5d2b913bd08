-- ===== src/Checkpoint/Uploads/Reserved.antt =====
-- The rows of a reserved contribution: `mark_batch_reserved` can be repeated at any time.
use openfotos_platform.Checkpoint.Inventory.{is_accepted}
use openfotos_platform.Prelude.{
  any, any_ext, keep, not, ◌&&◌, [], ◌∷◌, ◌∙◌, ℕ, ◌≡◌, Bool, true, false, List, ◌++◌, map, ok, ◌==◌,
  update, refl, ap, arith, find-update, find_sound, update-update, ==_refl, >>=-eq-ok,
}
use openfotos_platform.States.{Variant}
use openfotos_platform.Checkpoint.{
  ItemRow, BatchState, BatchRow, UploadRow, DerivativeRow, FaceRow, Store,
}
use openfotos_platform.Checkpoint.Batches.{get_batch}
use openfotos_platform.Checkpoint.Pending.{
  is_preview, is_thumbnail, pending_derivative, accepted_items, pending_upload, pending_face,
  both_variants, same_derivative, insert_uploads, insert_derivatives, insert_faces,
}
use openfotos_platform.Checkpoint.Pending.Ignore.{
  uncovered, insert_or_ignore-keeps, insert_or_ignore-covers, insert_or_ignore-again,
}
use openfotos_platform.Checkpoint.Uploads.{mark_batch_reserved, is_reservable, reserved_state}

abbrev pub same_upload : UploadRow → UploadRow → Bool
same_upload u w = u.item == w.item

abbrev pub same_face : FaceRow → FaceRow → Bool
same_face f g = f.item == g.item

same_derivative_refl : (d : DerivativeRow) → same_derivative d d ≡ true
same_derivative_refl d = elim d.variant [
  | Variant.original ↦ ground arith
  | Variant.preview ↦ ground arith
  | Variant.thumbnail ↦ ground arith
]

abbrev pub reserved_row : BatchRow → BatchRow
reserved_row b = record b { state = reserved_state b.state }

-- Every accepted file of the contribution has its four rows.
abbrev pub HasRows : (batch : ℕ) → Store → Type 0
HasRows batch s =
    (uncovered same_upload (map pending_upload (accepted_items batch s)) s.uploads ≡ false)
    × (uncovered same_derivative (both_variants (accepted_items batch s)) s.derivatives ≡ false)
    × (uncovered same_face (map pending_face (accepted_items batch s)) s.faces ≡ false)

-- What the command leaves.
abbrev pub reserved_store : (batch : ℕ) → Store → Store
reserved_store batch s = insert_faces batch (
    insert_derivatives batch (
      insert_uploads batch
        (record s { batches = update (λ r. r.id == batch) reserved_row s.batches })))

mark_batch_reserved-store :
    (batch : ℕ) (s : Store) (b : BatchRow)
    → get_batch batch s ≡ ok b
    → is_reservable b.state ≡ true
    → mark_batch_reserved batch s ≡ ok (reserved_store batch s)
unfolding mark_batch_reserved
mark_batch_reserved-store batch s b e reservable = rw (e, reservable) refl

mark_batch_reserved-reservable :
    (batch : ℕ) (s s' : Store) (b : BatchRow)
    → get_batch batch s ≡ ok b
    → mark_batch_reserved batch s ≡ ok s'
    → is_reservable b.state ≡ true
unfolding mark_batch_reserved
mark_batch_reserved-reservable batch s s' b e = rw e (ground arith)

reserved_store-get_batch :
    (batch : ℕ) (s : Store) (b : BatchRow)
    → get_batch batch s ≡ ok b
    → get_batch batch (reserved_store batch s) ≡ ok (reserved_row b)
unfolding get_batch insert_uploads insert_derivatives insert_faces
reserved_store-get_batch batch s b e = ground (
  arith,
  find-update (λ r. r.id == batch) (λ r. r.id == batch) reserved_row (λ r. refl) s.batches b,
  find_sound (λ r. r.id == batch) s.batches b,
)

reserved_state-is_reservable :
    (state : BatchState) → is_reservable state ≡ true → is_reservable (reserved_state state) ≡ true
reserved_state-is_reservable state e = ground arith

reserved_store-HasRows : (batch : ℕ) (s : Store) → HasRows batch (reserved_store batch s)
unfolding insert_uploads insert_derivatives insert_faces
reserved_store-HasRows batch s = (
  insert_or_ignore-covers same_upload (λ u. ==_refl u.item) _ s.uploads,
  insert_or_ignore-covers same_derivative same_derivative_refl _ s.derivatives,
  insert_or_ignore-covers same_face (λ f. ==_refl f.item) _ s.faces,
)

reserved_store-again :
    (batch : ℕ) (s : Store) → reserved_store batch (reserved_store batch s) ≡ reserved_store batch s
unfolding insert_uploads insert_derivatives insert_faces
reserved_store-again batch s =
    let (us, ds, fs) = reserved_store-HasRows batch s in
    rw
      (
        update-update (λ r. r.id == batch) reserved_row (λ r. refl) reserved_row_again s.batches,
        insert_or_ignore-again same_upload _ _ us,
        insert_or_ignore-again same_derivative _ _ ds,
        insert_or_ignore-again same_face _ _ fs,
      )
      refl
  where
    reserved_row_again : (r : BatchRow) → reserved_row (reserved_row r) ≡ reserved_row r
    reserved_row_again r = ground arith

-- A file of the contribution that is accepted, and that has no row which the test allows.
abbrev pub lacks : {A : Type 0} → (ItemRow → A → Bool) → (batch : ℕ) → List A → Store → Bool
lacks is_row batch rows s =
    any (λ i. i.batch == batch && (is_accepted i && not (any (is_row i) rows))) s.items

-- No accepted file of the contribution is without an upload, a preview, a thumbnail or a face analysis.
pub record IsReserved (batch : ℕ) (s : Store) : Type 0 where
  pub uploads : lacks (λ i u. u.item == i.id) batch s.uploads s ≡ false
  pub previews : lacks (λ i d. d.item == i.id && is_preview d.variant) batch s.derivatives s ≡ false
  pub thumbnails :
      lacks (λ i d. d.item == i.id && is_thumbnail d.variant) batch s.derivatives s ≡ false
  pub faces : lacks (λ i f. f.item == i.id) batch s.faces s ≡ false

-- The rows that cover those of the accepted files are theirs.
lacks-none :
    {A : Type 0} (same : A → A → Bool) (of : ItemRow → A) (is_row : ItemRow → A → Bool)
    → ((i : ItemRow) (x : A) → same (of i) x ≡ is_row i x)
    → (batch : ℕ) (rows : List A) (items : List ItemRow)
    → uncovered same (map of (keep (λ i. i.batch == batch && is_accepted i) items)) rows ≡ false
    → any (λ i. i.batch == batch && (is_accepted i && not (any (is_row i) rows))) items ≡ false
unfolding any keep
lacks-none same of is_row agree batch rows [] e = refl
lacks-none same of is_row agree batch rows (i ∷ is) e = ground (
  arith,
  e,
  any_ext (same (of i)) (is_row i) (agree i) rows,
  lacks-none same of is_row agree batch rows is,
)

-- A row of each variant for each file.
both_variants-covered :
    (is : List ItemRow) (rows : List DerivativeRow)
    → uncovered same_derivative (both_variants is) rows ≡ false
    → (uncovered same_derivative (map (pending_derivative Variant.preview) is) rows ≡ false)
      × (uncovered same_derivative (map (pending_derivative Variant.thumbnail) is) rows ≡ false)
unfolding any
both_variants-covered [] rows e = (refl, refl)
both_variants-covered (i ∷ is) rows e =
    let rest = both_variants-covered is rows (ground (arith, e)) in
    (ground (arith, e, rest.0), ground (arith, e, rest.1))

==_sym : (a b : ℕ) → (a == b) ≡ (b == a)
==_sym a b = ground arith

HasRows-IsReserved : (batch : ℕ) (s : Store) → HasRows batch s → IsReserved batch s
HasRows-IsReserved batch s (us, ds, fs) =
    let (previews, thumbnails) = both_variants-covered (accepted_items batch s) s.derivatives ds in
    record {
      uploads =
          lacks-none same_upload pending_upload (λ i u. u.item == i.id) (λ i u. ==_sym i.id u.item)
            batch s.uploads s.items us;
      previews =
          lacks-none same_derivative (pending_derivative Variant.preview)
            (λ i d. d.item == i.id && is_preview d.variant) (λ i d. rw (==_sym i.id d.item) refl)
            batch s.derivatives s.items previews;
      thumbnails =
          lacks-none same_derivative (pending_derivative Variant.thumbnail)
            (λ i d. d.item == i.id && is_thumbnail d.variant) (λ i d. rw (==_sym i.id d.item) refl)
            batch s.derivatives s.items thumbnails;
      faces =
          lacks-none same_face pending_face (λ i f. f.item == i.id) (λ i f. ==_sym i.id f.item)
            batch s.faces s.items fs;
    }

-- A reservation that succeeds leaves an upload, a preview, a thumbnail and a face analysis for each
-- accepted file, keeps every upload that was there as it was, and succeeds again without a change.
pub mark_batch_reserved-repeats :
    (batch : ℕ) (s s' : Store)
    → mark_batch_reserved batch s ≡ ok s'
    → IsReserved batch s'
      × ((new : List UploadRow) × (s'.uploads ≡ s.uploads ++ new))
      × (mark_batch_reserved batch s' ≡ ok s')
unfolding mark_batch_reserved insert_uploads insert_derivatives insert_faces
mark_batch_reserved-repeats batch s s' e =
    let (b, eb, rest) = >>=-eq-ok (get_batch batch s) _ e in
    let reservable = mark_batch_reserved-reservable batch s s' b eb e in
    let left : s' ≡ reserved_store batch s =
      ground (arith, mark_batch_reserved-store batch s b eb reservable) in
    (
      HasRows-IsReserved batch s' (rw left (reserved_store-HasRows batch s)),
      rw left (
          insert_or_ignore-keeps same_upload (map pending_upload (accepted_items batch s))
            s.uploads),
      rw left (
          mark_batch_reserved-store batch (reserved_store batch s) (reserved_row b)
            (reserved_store-get_batch batch s b eb)
            (reserved_state-is_reservable b.state reservable)
          ∙ ap ok (reserved_store-again batch s)),
    )
