-- ===== src/Checkpoint/Batches/Found.antt =====
-- A contribution that is known, before and after an update of its row.
use openfotos_platform.Prelude.{
  ℕ, ◌≡◌, List, ok, ◌==◌, find, update, find-update, find_sound, any-find, ap, refl, arith, some,
  Option-cases, inl, inr,
}
use openfotos_platform.Checkpoint.{BatchState, BatchRow, Store}
use openfotos_platform.Checkpoint.Batches.{get_batch, set_batch_state}

abbrev pub with_batches : List BatchRow → Store → Store
with_batches rows s = record s { batches = rows }

pub get_batch-find :
    (batch : ℕ) (s : Store) (b : BatchRow)
    → get_batch batch s ≡ ok b
    → find (λ r. r.id == batch) s.batches ≡ some b
unfolding get_batch
get_batch-find batch s b e = elim (Option-cases (find (λ r. r.id == batch) s.batches)) [
  | inl none_so ↦ ground arith
  | inr (c, some_so) ↦ ground arith
]

pub get_batch-update :
    (batch : ℕ) (f : BatchRow → BatchRow) (s : Store) (b : BatchRow)
    → ((x : BatchRow) → (f x).id ≡ x.id)
    → get_batch batch s ≡ ok b
    → get_batch batch (with_batches (update (λ r. r.id == batch) f s.batches) s) ≡ ok (f b)
unfolding get_batch
get_batch-update batch f s b keeps e = ground (
  arith,
  find-update (λ r. r.id == batch) (λ r. r.id == batch) f (λ x. ap (λ i. i == batch) (keeps x))
      s.batches b,
  find_sound (λ r. r.id == batch) s.batches b,
)

pub set_batch_state-known :
    (batch : ℕ) (state : BatchState) (s : Store) (b : BatchRow)
    → get_batch batch s ≡ ok b
    → set_batch_state batch state s
      ≡ ok
          (with_batches (update (λ r. r.id == batch) (λ r. record r { state = state }) s.batches) s)
unfolding set_batch_state
set_batch_state-known batch state s b e =
    rw (any-find (λ r. r.id == batch) s.batches b (get_batch-find batch s b e)) refl
