-- ===== src/Checkpoint/Approval/Frozen.antt =====
-- When an approval succeeds, and what it freezes.
use openfotos_platform.Checkpoint.Batches.Found.{get_batch-update}
use openfotos_platform.Prelude.{
  Result-cases, ℕ, ◌≡◌, succeeds, true, not, ◌&&◌, Text, ok, err, ◌==◌, ◌=ᵗ◌, ltb, update, refl,
  arith, inl, inr,
}
use openfotos_platform.Checkpoint.{BatchRow, SelectionKind, EventCache, Store, StoreError, Host}
use openfotos_platform.Checkpoint.Events.{get_event}
use openfotos_platform.Checkpoint.Batches.{get_batch, add_selection}
use openfotos_platform.Checkpoint.Approval.{
  approve_batch, approved_row, summary, summary_of_batch, no_counts, can_approve, is_needs_review,
}

-- A contribution that is known, of an event that is cached, can be approved exactly when its scan
-- waits for review, its summary can be approved, the profile is the event's, and the accepted
-- bytes are within the event's allowance.
pub approve_batch-succeeds :
    (now batch : ℕ) (profile : Text) (s : Store) (b : BatchRow) (e : EventCache)
    → get_batch batch s ≡ ok b
    → get_event b.event s ≡ ok e
    → succeeds (approve_batch now batch profile s) ≡ (
        is_needs_review b.state
        && (can_approve (summary_of_batch b no_counts s)
            && (e.processing_profile_id =ᵗ profile
                && not
                    (ltb e.storage_limit_bytes (summary_of_batch b no_counts s).accepted_bytes))))
unfolding approve_batch summary
approve_batch-succeeds now batch profile s b e hb he = rw (hb, he) (ground arith)

approve_batch-row :
    (now batch : ℕ) (profile : Text) (s s' : Store) (b : BatchRow)
    → get_batch batch s ≡ ok b
    → approve_batch now batch profile s ≡ ok s'
    → (can_approve (summary_of_batch b no_counts s) ≡ true)
      × (s' ≡ record s { batches = update (λ r. r.id == batch) (approved_row now) s.batches })
unfolding approve_batch summary
approve_batch-row now batch profile s s' b hb = rw hb (elim (Result-cases (get_event b.event s)) [
  | inl (e, he) ↦ rw he (ground arith)
  | inr (c, he) ↦ rw he (ground arith)
])

-- An approval that succeeds found the contribution with a summary that can be approved, and leaves it
-- approved and frozen: adding a path to it is then refused, and so is a second approval.
pub approve_batch-freezes :
    (now batch : ℕ) (profile : Text) (s s' : Store) (b : BatchRow) (h : Host) (later fresh : ℕ)
    (path : Text) (kind : SelectionKind)
    → get_batch batch s ≡ ok b
    → approve_batch now batch profile s ≡ ok s'
    → (can_approve (summary_of_batch b no_counts s) ≡ true)
      × (get_batch batch s' ≡ ok (approved_row now b))
      × (add_selection h later fresh batch path kind s' ≡ err StoreError.frozen_additions)
      × (approve_batch later batch profile s' ≡ err StoreError.not_scanned)
unfolding approve_batch add_selection
approve_batch-freezes now batch profile s s' b h later fresh path kind hb e =
    let (can, moved) = approve_batch-row now batch profile s s' b hb e in
    let after : get_batch batch s' ≡ ok (approved_row now b) =
      rw moved (get_batch-update batch (approved_row now) s b (λ x. refl) hb) in
    (can, after, rw after (ground arith), rw after (ground arith))
