-- ===== src/Checkpoint/Uploads/Complete.antt =====
-- A contribution is complete once the last of its uploads ends.
use openfotos_platform.Prelude.{
  subst, ℕ, ◌≡◌, Bool, true, false, not, ◌&&◌, Option, none, some, List, [], ◌∷◌, ◌++◌, Result, ok,
  err, ◌==◌, any, find, update, refl, sym, if◌then◌else◌, arith, Option-cases, Bool-cases, inl, inr,
  find-update, any-update, any-update-false, find_sound,
}
use openfotos_platform.Checkpoint.{BatchState, BatchRow, ItemRow, Store, StoreError}
use openfotos_platform.Checkpoint.Batches.{get_batch}
use openfotos_platform.Checkpoint.Pending.{owned_by}
use openfotos_platform.Checkpoint.Previews.{is_settled}
use openfotos_platform.Checkpoint.Uploads.{has_remaining, is_not_included, updated_upload}
use openfotos_platform.Checkpoint.Uploads.Settle.{
  Settlement, item_of, end_of, settle, settle_all, settle-items, settle-uploads, settle-batches,
  settle-unknown, refreshed_state,
}

-- Does the contribution have an upload that has not ended, and that none of these ends?
abbrev pub open_outside : (batch : ℕ) → List Settlement → Store → Bool
open_outside batch os s =
    any
      (λ u.
        owned_by batch s u.item
        && (not (is_settled u.state) && not (any (λ o. item_of o == u.item) os)))
      s.uploads

end-is_settled : (o : Settlement) → is_settled (end_of o) ≡ true
end-is_settled (Settlement.verify item) = refl
end-is_settled (Settlement.exclude item) = refl

settle-open_outside :
    (now batch : ℕ) (o : Settlement) (os : List Settlement) (s : Store)
    → open_outside batch (o ∷ os) s ≡ false
    → open_outside batch os (settle now o s).1 ≡ false
unfolding any
settle-open_outside now batch o os s e =
    rw (settle-items now o s, settle-uploads now o s)
      (any-update-false _ _ _ _ (λ u at. ground (arith, end-is_settled o))
        (λ u other before. ground arith) s.uploads e)

-- The row of a contribution after the refresh of an item's.
abbrev refreshed_row : ItemRow → Store → BatchRow → BatchRow
refreshed_row i s b =
    if b.id == i.batch && not (is_not_included b.state)
    then record b { state = refreshed_state (has_remaining i.batch s) }
    else b

-- The store between the two parts of an end.
abbrev ended : (now : ℕ) → Settlement → Store → Store
ended now o s = record s {
  uploads = update (λ u. u.item == item_of o) (updated_upload now (end_of o) none false) s.uploads;
}

settle-row :
    (now batch : ℕ) (o : Settlement) (s : Store) (b : BatchRow) (i : ItemRow)
    → get_batch batch s ≡ ok b
    → any (λ u. u.item == item_of o) s.uploads ≡ true
    → find (λ j. j.id == item_of o) s.items ≡ some i
    → get_batch batch (settle now o s).1 ≡ ok (refreshed_row i (ended now o s) b)
unfolding get_batch
settle-row now batch o s b i e known found = rw (settle-batches now o s i known found).1 (
    ground (
      arith,
      find-update (λ r. r.id == batch) (λ r. r.id == i.batch && not (is_not_included r.state))
          (λ r. record r { state = refreshed_state (has_remaining i.batch (ended now o s)) })
          (λ r. refl) s.batches b,
    ))

-- A contribution that the server includes stays included.
settle-included :
    (now batch : ℕ) (o : Settlement) (s : Store) (b : BatchRow)
    → get_batch batch s ≡ ok b
    → is_not_included b.state ≡ false
    → (c : BatchRow) × (get_batch batch (settle now o s).1 ≡ ok c)
      × (is_not_included c.state ≡ false)
unfolding get_batch
settle-included now batch o s b e included =
    elim (Bool-cases (any (λ u. u.item == item_of o) s.uploads)) [
      | inr unknown ↦ (b, rw (settle-unknown now o s (inl unknown)) e, included)
      | inl known ↦ elim (Option-cases (find (λ j. j.id == item_of o) s.items)) [
        | inl unknown ↦ (b, rw (settle-unknown now o s (inr unknown)) e, included)
        | inr (i, found) ↦ (
          refreshed_row i (ended now o s) b,
          settle-row now batch o s b i e known found,
          ground arith,
        )
      ]
    ]

ended-has_remaining :
    (now batch : ℕ) (o : Settlement) (s : Store)
    → open_outside batch (o ∷ []) s ≡ false
    → has_remaining batch (ended now o s) ≡ false
unfolding has_remaining any
ended-has_remaining now batch o s e =
    any-update-false _ _ _ _ (λ u at. ground (arith, end-is_settled o))
      (λ u other before. ground arith) s.uploads e

settle_all-row :
    (now batch : ℕ) (os : List Settlement) (last : Settlement) (s : Store) (b : BatchRow)
    (i : ItemRow)
    → get_batch batch s ≡ ok b
    → is_not_included b.state ≡ false
    → find (λ j. j.id == item_of last) s.items ≡ some i
    → i.batch ≡ batch
    → any (λ u. u.item == item_of last) s.uploads ≡ true
    → open_outside batch (os ++ last ∷ []) s ≡ false
    → (c : BatchRow) × (get_batch batch (settle_all now (os ++ last ∷ []) s) ≡ ok c)
      × (c.state ≡ BatchState.complete)
unfolding settle_all get_batch
settle_all-row now batch [] last s b i e included found of_batch known covered = (
  refreshed_row i (ended now last s) b,
  settle-row now batch last s b i e known found,
  ground (
    arith,
    find_sound (λ r. r.id == batch) s.batches b,
    subst (λ n. has_remaining n (ended now last s) ≡ false) (sym of_batch)
        (ended-has_remaining now batch last s covered),
  ),
)
settle_all-row now batch (o ∷ os) last s b i e included found of_batch known covered =
    let (c, ec, still) = settle-included now batch o s b e included in
    settle_all-row now batch os last (settle now o s).1 c i ec still
      (rw (settle-items now o s) found) of_batch
      (rw
        (
          settle-uploads now o s,
          any-update (λ u. u.item == item_of last) (λ u. u.item == item_of o)
              (updated_upload now (end_of o) none false) (λ u. refl) s.uploads,
        )
        known)
      (settle-open_outside now batch o (os ++ last ∷ []) s covered)

abbrev pub state_in : Result StoreError BatchRow → Option BatchState
state_in (ok b) = some b.state
state_in (err e) = none

abbrev pub state_of : (batch : ℕ) → Store → Option BatchState
state_of batch s = state_in (get_batch batch s)

-- The uploads of a contribution that the server includes come to an end in any order, some of
-- them more than once and some that fail: when the last of those that were open ends, and its row
-- and its file are there, the contribution is complete.
pub settle_all-completes :
    (now batch : ℕ) (os : List Settlement) (last : Settlement) (s : Store) (b : BatchRow)
    (i : ItemRow)
    → get_batch batch s ≡ ok b
    → is_not_included b.state ≡ false
    → find (λ j. j.id == item_of last) s.items ≡ some i
    → i.batch ≡ batch
    → any (λ u. u.item == item_of last) s.uploads ≡ true
    → open_outside batch (os ++ last ∷ []) s ≡ false
    → state_of batch (settle_all now (os ++ last ∷ []) s) ≡ some BatchState.complete
settle_all-completes now batch os last s b i e included found of_batch known covered =
    let (c, ec, complete_c) =
      settle_all-row now batch os last s b i e included found of_batch known covered in
    rw (ec, complete_c) refl
