-- ===== src/Scanner/Concluded.antt =====
-- The end of a scan (`conclude`), for a contribution that is still there.
use openfotos_platform.Checkpoint.Batches.Found.{
  get_batch-update, set_batch_state-known, with_batches,
}
use openfotos_platform.Scanner.Steady.{
  row_count-none, row_count-keep-none, reconcile_unseen-known_files,
}
use openfotos_platform.Checkpoint.Inventory.{is_blocking}
use openfotos_platform.Prelude.{
  any, ◌&&◌, ◌==◌, ◌+◌, ℕ, ◌≡◌, ◌∙◌, refl, sym, Bool, true, false, ok, ap, arith, update,
  if◌then◌else◌,
}
use openfotos_platform.Checkpoint.{Store, Host, BatchState, BatchRow}
use openfotos_platform.Checkpoint.Batches.{get_batch}
use openfotos_platform.Checkpoint.Inventory.{reconcile_unseen}
use openfotos_platform.Checkpoint.Approval.{ScanCounts, summary_of_batch, ScanSummary, summary}
use openfotos_platform.Scanner.{Disk}
use openfotos_platform.Scanner.Scan.{as_failure, counts_of, Scan, conclude, requires_review}

abbrev pub scanning_row : BatchRow → BatchRow → BatchRow
scanning_row b r = record r { state = BatchState.scanning; scan_generation = b.scan_generation + 1 }

pub same_batches-get_batch :
    (batch : ℕ) (s w : Store) → s.batches ≡ w.batches → get_batch batch s ≡ get_batch batch w
unfolding get_batch
same_batches-get_batch batch s w e = rw e refl

-- No file of the contribution blocks, and no issue of its next scan does.
pub record IsClear (b : BatchRow) (s : Store) : Type 0 where
  pub files : any (λ i. i.batch == b.id && is_blocking i) s.items ≡ false
  pub issues :
      any
        (λ r. (r.batch == b.id && r.generation == b.scan_generation + 1) && r.blocking)
        s.scan_issues
      ≡ false

module _ (h : Host) (disk : Disk) (fresh_id : ℕ → ℕ) (is_cancelled : ℕ → Bool) where
  module _ (batch generation : ℕ) (frozen : Bool) (v : Scan) where
    abbrev reconciled : Store
    reconciled = (reconcile_unseen batch generation frozen v.store).1

    abbrev all_counts : ScanCounts
    all_counts = record (counts_of h disk fresh_id is_cancelled v) {
      changed_count = v.changed_count + (reconcile_unseen batch generation frozen v.store).0;
    }

    abbrev finished_row : BatchRow → BatchRow
    finished_row b = record b {
      state =
          if requires_review h disk fresh_id is_cancelled frozen
            (summary_of_batch b all_counts reconciled)
          then BatchState.needs_review
          else BatchState.approved;
    }

    abbrev finished : BatchRow → Store
    finished b =
        with_batches
          (update (λ r. r.id == batch) (λ r. record r { state = (finished_row b).state })
            reconciled.batches)
          reconciled

    -- The end of a scan, where the contribution is still there.
    conclude-known :
        (b : BatchRow)
        → get_batch batch reconciled ≡ ok b
        → conclude h disk fresh_id is_cancelled batch generation frozen v
          ≡ (ok (summary_of_batch (finished_row b) all_counts (finished b)), finished b)
    unfolding conclude summary
    conclude-known b e =
        rw
          (
            conclude,
            e,
            set_batch_state-known batch (finished_row b).state reconciled b e,
            get_batch-update batch (λ r. record r { state = (finished_row b).state }) reconciled b
                (λ r. refl) e,
          )
          refl

    reconciled-batches : reconciled.batches ≡ v.store.batches
    unfolding reconcile_unseen
    reconciled-batches =
        elim frozen
          as (λ k. (reconcile_unseen batch generation k v.store).1.batches ≡ v.store.batches) [
            | true ↦ refl
            | false ↦ refl
          ]

    finished_row-approved :
        (b : BatchRow)
        → (finished_row b).state ≡ BatchState.approved
        → (frozen ≡ true)
          × (all_counts.changed_count ≡ 0)
          × ((summary_of_batch b all_counts reconciled).blocking_item_count ≡ 0)
          × ((summary_of_batch b all_counts reconciled).blocking_issue_count ≡ 0)
    finished_row-approved b e = ground arith

  pub concluded-approves :
      (batch generation : ℕ) (frozen : Bool) (v : Scan) (s' : Store) (answer : ScanSummary)
      (b : BatchRow)
      → get_batch batch v.store ≡ ok (scanning_row b b)
      → as_failure h disk fresh_id is_cancelled
          (conclude h disk fresh_id is_cancelled batch generation frozen v)
        ≡ (ok answer, s')
      → answer.state ≡ BatchState.approved
      → (frozen ≡ true) × (v.changed_count ≡ 0) × (s'.items ≡ v.store.items) × IsClear b s'
  concluded-approves batch generation frozen v s' answer b eb e approved =
      let row = scanning_row b b in
      let known = conclude-known batch generation frozen v row (
        same_batches-get_batch batch _ v.store (reconciled-batches batch generation frozen v)
        ∙ eb) in
      let same : answer
          ≡ summary_of_batch (finished_row batch generation frozen v row)
              (all_counts batch generation frozen v) (finished batch generation frozen v row) =
        ground arith in
      let left : s' ≡ finished batch generation frozen v row = ground arith in
      let (is_true, unchanged, files, issues) =
        finished_row-approved batch generation frozen v row
          (sym (ap (λ a. a.state) same) ∙ approved) in
      let items =
        reconcile_unseen-known_files batch generation frozen v.store is_true
          (ground (arith, unchanged)) in
      (
        is_true,
        ground (arith, unchanged),
        ap (λ s. s.items) left ∙ items,
        record {
          files =
              ap (λ s. any (λ i. i.batch == b.id && is_blocking i) s.items) left
              ∙ row_count-keep-none (λ i. i.batch == b.id) is_blocking _ files;
          issues =
              ap
                (λ s.
                  any
                    (λ r. (r.batch == b.id && r.generation == b.scan_generation + 1) && r.blocking)
                    s.scan_issues)
                left
              ∙ row_count-none _ _ issues;
        },
      )
