-- ===== src/Scanner/Frozen.antt =====
-- The approval of a contribution by a scan (apps/desktop/src/openfotos_desktop/ingestion/scanner.py).
use openfotos_platform.Scanner.Concluded.{
  scanning_row, same_batches-get_batch, IsClear, concluded-approves,
}
use openfotos_platform.Checkpoint.Batches.Found.{get_batch-update, with_batches}
use openfotos_platform.Scanner.Steady.{known_files, without_generation, visit_selections-Steady}
use openfotos_platform.Prelude.{
  map, subst, ◌==◌, ℕ, ◌≡◌, ◌∙◌, refl, sym, Bool, true, false, List, ok, Result-cases, inl, inr, ap,
  arith, update,
}
use openfotos_platform.Checkpoint.{Store, SelectionRow, Host, BatchState, BatchRow}
use openfotos_platform.Checkpoint.Batches.{
  list_selections, get_batch, is_frozen, start_scan, set_batch_state,
}
use openfotos_platform.Checkpoint.Inventory.{
  get_item_by_path, upsert_item, touch_item, add_scan_issue,
}
use openfotos_platform.Checkpoint.Approval.{ScanSummary}
use openfotos_platform.Scanner.{Disk, Found}
use openfotos_platform.Scanner.Scan.{
  new_scan, pause_after, Scan, ScanFailure, visit, visit_new, visit_selections, scan,
}
use openfotos_platform.Scanner.Kept.{scan-visited, store_of, visit_selections-keeps}

start_scan-files :
    (batch : ℕ) (s : Store) (answer : (ℕ × Bool) × Store)
    → start_scan batch s ≡ ok answer
    → answer.1.items ≡ s.items
unfolding start_scan get_batch
start_scan-files batch s answer e = ground arith

module _ (h : Host) (disk : Disk) (fresh_id : ℕ → ℕ) (is_cancelled : ℕ → Bool) where
  visit-batches :
      (batch generation : ℕ) (frozen : Bool) (f : Found) (v : Scan)
      → (store_of (visit h disk fresh_id is_cancelled batch generation frozen f v)).batches
        ≡ v.store.batches
  unfolding visit visit_new upsert_item touch_item add_scan_issue get_item_by_path
  visit-batches batch generation frozen (Found.issue r reason path) v = ground arith
  visit-batches batch generation frozen (Found.candidate c) v = ground arith

  start_scan-row :
      (batch : ℕ) (s started : Store) (generation : ℕ) (frozen : Bool) (b : BatchRow)
      → get_batch batch s ≡ ok b
      → start_scan batch s ≡ ok ((generation, frozen), started)
      → (frozen ≡ is_frozen b)
        × (started.batches ≡ update (λ r. r.id == batch) (scanning_row b) s.batches)
  unfolding start_scan
  start_scan-row batch s started generation frozen b eb = rw eb (ground arith)

  start_scan-known :
      (batch : ℕ) (s started : Store) (generation : ℕ) (frozen : Bool) (b : BatchRow)
      → get_batch batch s ≡ ok b
      → start_scan batch s ≡ ok ((generation, frozen), started)
      → (frozen ≡ is_frozen b) × (get_batch batch started ≡ ok (scanning_row b b))
  start_scan-known batch s started generation frozen b eb e =
      let (same, rows) = start_scan-row batch s started generation frozen b eb e in
      (
        same,
        same_batches-get_batch batch started
              (with_batches (update (λ r. r.id == batch) (scanning_row b) s.batches) s) rows
            ∙ get_batch-update batch (scanning_row b) s b (λ r. refl) eb,
      )

  -- The selections leave the contributions as they are.
  visited-batches :
      (fuel batch generation : ℕ) (frozen : Bool) (rs : List SelectionRow) (v w : Scan)
      → visit_selections h disk fresh_id is_cancelled fuel batch generation frozen rs v ≡ ok w
      → w.store.batches ≡ v.store.batches
  visited-batches fuel batch generation frozen rs v w e =
      subst (λ r. (store_of r).batches ≡ v.store.batches) e
        (visit_selections-keeps h disk fresh_id is_cancelled batch generation frozen
          (λ s. s.batches) (visit-batches batch generation frozen) fuel rs v)

  pause_after-fails :
      (batch : ℕ) (failure : ScanFailure) (s s' : Store) (answer : ScanSummary)
      → pause_after h disk fresh_id is_cancelled batch (failure, s) ≡ (ok answer, s')
      → ⊥
  pause_after-fails batch ScanFailure.scan_cancelled s s' answer e =
      elim (Result-cases (set_batch_state batch BatchState.paused s)) [
        | inl (w, ew) ↦ ground arith
        | inr (c, ew) ↦ ground arith
      ]
  pause_after-fails batch ScanFailure.out_of_fuel s s' answer e = ground arith
  pause_after-fails batch (ScanFailure.store_failure c) s s' answer e = ground arith

  frozen-known_files :
      (fuel batch generation : ℕ) (frozen : Bool) (rs : List SelectionRow) (v w : Scan)
      → frozen ≡ true
      → w.changed_count ≡ 0
      → visit_selections h disk fresh_id is_cancelled fuel batch generation frozen rs v ≡ ok w
      → known_files w.store ≡ known_files v.store
  frozen-known_files fuel batch generation false rs v w f none_changed e = absurd (ground arith)
  frozen-known_files fuel batch generation true rs v w f none_changed e =
      elim (visit_selections-Steady h disk fresh_id is_cancelled batch generation fuel rs v w e) [
        | inl (counts, same) ↦ same
        | inr more ↦ absurd (ground (arith, more, none_changed))
      ]

  -- A scan approves a contribution only where it was frozen before. What the store knows of each file (its
  -- place, its size and times, its digests and its status) is then as it was before the scan, but for the
  -- scan that last saw it; no file of the contribution blocks, and no issue of this scan does.
  pub scan-approves :
      (fuel batch : ℕ) (s s' : Store) (b : BatchRow) (answer : ScanSummary)
      → get_batch batch s ≡ ok b
      → scan h disk fresh_id is_cancelled fuel batch s ≡ (ok answer, s')
      → answer.state ≡ BatchState.approved
      → (is_frozen b ≡ true) × (known_files s' ≡ known_files s) × IsClear b s'
  unfolding scan
  scan-approves fuel batch s s' b answer eb e approved = elim (Result-cases (start_scan batch s)) [
    | inr (c, es) ↦ absurd (ground arith)
    | inl (((generation, frozen), started), es) ↦
        elim (Result-cases (
          visit_selections h disk fresh_id is_cancelled fuel batch generation frozen
            (list_selections batch started) (new_scan started))) [
              | inr ((failure, w), ev) ↦ absurd (
                  pause_after-fails batch failure w s' answer (
                    sym (
                      scan-visited h disk fresh_id is_cancelled fuel batch generation frozen s
                        started es _ ev)
                    ∙ e))
              | inl (v, ev) ↦
                  let (same, found) = start_scan-known batch s started generation frozen b eb es in
                  let (is_true, unchanged, items, clear) =
                    concluded-approves h disk fresh_id is_cancelled batch generation frozen v s'
                      answer b
                      (same_batches-get_batch batch v.store started
                          (visited-batches fuel batch generation frozen _ _ v ev)
                        ∙ found)
                      (sym (
                          scan-visited h disk fresh_id is_cancelled fuel batch generation frozen s
                            started es _ ev)
                        ∙ e)
                      approved in
                  (
                    sym same ∙ is_true,
                    ap (map without_generation) items
                        ∙ frozen-known_files fuel batch generation frozen _ (new_scan started) v
                            is_true unchanged ev
                        ∙ ap (map without_generation) (start_scan-files batch s _ es),
                    clear,
                  )
            ]
  ]
