-- ===== src/Checkpoint/Uploads/Settle.antt =====
-- The two ends of an upload, verification and exclusion: what each does to the rows, on every branch.
use openfotos_platform.Prelude.{
  ◌⊎◌, ℕ, ◌≡◌, Bool, true, false, not, ◌&&◌, none, some, List, [], ◌∷◌, Result, ok, ◌==◌, any, find,
  update, refl, if◌then◌else◌, arith, inl, inr,
}
use openfotos_platform.Checkpoint.{
  BatchState, BatchRow, LocalUploadState, ItemRow, Store, StoreError,
}
use openfotos_platform.Checkpoint.Faces.{update_face_analysis}
use openfotos_platform.Checkpoint.Uploads.{
  mark_upload_verified, mark_upload_excluded, update_upload, updated_upload,
  refresh_batch_upload_state, has_remaining, is_not_included,
}

abbrev pub refreshed_state : (remaining : Bool) → BatchState
refreshed_state remaining = if remaining then BatchState.uploading else BatchState.complete

-- The end of an item's upload.
pub data Settlement : Type 0 where
  verify exclude : (item : ℕ) → Settlement

abbrev pub item_of : Settlement → ℕ
item_of (Settlement.verify item) = item
item_of (Settlement.exclude item) = item

abbrev pub end_of : Settlement → LocalUploadState
end_of (Settlement.verify item) = LocalUploadState.verified
end_of (Settlement.exclude item) = LocalUploadState.excluded

unfoldable pub settle : (now : ℕ) → Settlement → Store → Result StoreError (Unit {0}) × Store
settle now (Settlement.verify item) s = mark_upload_verified now item s
settle now (Settlement.exclude item) s = mark_upload_excluded now item s

-- One end after the other, whether they succeed or not.
unfoldable pub settle_all : (now : ℕ) → List Settlement → Store → Store
unfolding settle
settle_all now [] s = s
settle_all now (o ∷ os) s = settle_all now os (settle now o s).1

update-none :
    {A : Type 0} (p : A → Bool) (f : A → A) (xs : List A) → any p xs ≡ false → update p f xs ≡ xs
unfolding any update
update-none p f [] e = refl
update-none p f (x ∷ xs) e = ground (arith, update-none p f xs)

pub settle-items : (now : ℕ) (o : Settlement) (s : Store) → (settle now o s).1.items ≡ s.items
unfolding settle mark_upload_verified mark_upload_excluded update_upload update_face_analysis
    refresh_batch_upload_state
settle-items now (Settlement.verify item) s = ground arith
settle-items now (Settlement.exclude item) s = ground arith

pub settle-uploads :
    (now : ℕ) (o : Settlement) (s : Store)
    → (settle now o s).1.uploads
      ≡ update (λ u. u.item == item_of o) (updated_upload now (end_of o) none false) s.uploads
unfolding settle mark_upload_verified mark_upload_excluded update_upload update_face_analysis
    refresh_batch_upload_state
settle-uploads now (Settlement.verify item) s = ground (
  arith,
  update-none (λ u. u.item == item) (updated_upload now LocalUploadState.verified none false)
      s.uploads,
)
settle-uploads now (Settlement.exclude item) s = ground (
  arith,
  update-none (λ u. u.item == item) (updated_upload now LocalUploadState.excluded none false)
      s.uploads,
)

-- What the refresh of a contribution does, after a first part that leaves its items and batches.
abbrev pub refreshed_batches : ItemRow → Store → List BatchRow
refreshed_batches i s =
    update (λ b. b.id == i.batch && not (is_not_included b.state))
      (λ b. record b { state = refreshed_state (has_remaining i.batch s) }) s.batches

pub settle-batches :
    (now : ℕ) (o : Settlement) (s : Store) (i : ItemRow)
    → any (λ u. u.item == item_of o) s.uploads ≡ true
    → find (λ j. j.id == item_of o) s.items ≡ some i
    → ((settle now o s).0 ≡ ok tt)
      × ((settle now o s).1.batches
          ≡ refreshed_batches i (record s {
            uploads =
                update
                  (λ u. u.item == item_of o)
                  (updated_upload now (end_of o) none false)
                  s.uploads;
          }))
unfolding settle mark_upload_verified mark_upload_excluded update_upload update_face_analysis
    refresh_batch_upload_state has_remaining
settle-batches now (Settlement.verify item) s i he hf = rw (he, hf) (refl, refl)
settle-batches now (Settlement.exclude item) s i he hf = ground arith

-- An upload or an item that is not known leaves every contribution.
pub settle-unknown :
    (now : ℕ) (o : Settlement) (s : Store)
    → (any (λ u. u.item == item_of o) s.uploads ≡ false)
      ⊎ (find (λ j. j.id == item_of o) s.items ≡ none)
    → (settle now o s).1.batches ≡ s.batches
unfolding settle mark_upload_verified mark_upload_excluded update_upload update_face_analysis
    refresh_batch_upload_state
settle-unknown now (Settlement.verify item) s (inl e) = ground arith
settle-unknown now (Settlement.verify item) s (inr e) = ground arith
settle-unknown now (Settlement.exclude item) s (inl e) = ground arith
settle-unknown now (Settlement.exclude item) s (inr e) = ground arith
