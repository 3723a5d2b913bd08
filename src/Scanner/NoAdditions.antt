-- ===== src/Scanner/NoAdditions.antt =====
-- A frozen contribution keeps its files through a scan: none is added, and none is removed.
use openfotos_platform.Prelude.{
  suc, ◌=ᵗ◌, if_ind, ℕ, ◌≡◌, ◌∙◌, refl, Bool, true, false, some, List, ◌∷◌, Result, ok, err,
  Result-cases, Option-cases, inl, inr, ap, map, arith, any, update, map-update, Text, any-find,
}
use openfotos_platform.Checkpoint.{
  Store, Host, BatchRow, ItemRow, StoreError, FileSnapshot, ValidationResult, normalize_path,
}
use openfotos_platform.Checkpoint.Batches.{
  list_selections, get_batch, is_frozen, start_scan, set_batch_state,
}
use openfotos_platform.Checkpoint.Inventory.{
  get_item_by_path, upsert_item, touch_item, add_scan_issue, reconcile_unseen, rescanned,
  is_item_at, is_lost, missing,
}
use openfotos_platform.Checkpoint.Approval.{ScanSummary, summary}
use openfotos_platform.Scanner.{Disk, Found, Candidate}
use openfotos_platform.Scanner.Scan.{
  new_scan, as_failure, pause_after, kept_result, snapshot_of, latest, unchanged, in_scan, Scan,
  ScanFailure, visit, visit_new, conclude, scan,
}
use openfotos_platform.Scanner.Kept.{
  ended_scan, scan-visited, visited, store_of, visit_selections-keeps,
}

-- The files of all contributions, by their ids.
abbrev pub item_ids : Store → List ℕ
item_ids s = map (λ i. i.id) s.items

touch_item-item_ids :
    (item generation : ℕ) (s : Store) → item_ids (touch_item item generation s) ≡ item_ids s
unfolding touch_item
touch_item-item_ids item generation s = map-update (λ i. i.id) _ _ (λ i. refl) s.items

upsert_item-item_ids :
    (h : Host) (fresh batch selection : ℕ) (relative source_path : Text) (snapshot : FileSnapshot)
    (result : ValidationResult) (generation : ℕ) (s : Store) (i : ItemRow)
    → get_item_by_path batch (normalize_path h source_path) s ≡ some i
    → (answer : ℕ × Store)
    → upsert_item h fresh batch selection relative source_path snapshot result generation s
      ≡ ok answer
    → item_ids answer.1 ≡ item_ids s
unfolding upsert_item get_item_by_path
upsert_item-item_ids h fresh batch selection relative source_path snapshot result generation s i
      found answer e =
    let there = any-find (is_item_at batch (normalize_path h source_path)) s.items i found in
    let row : ItemRow = record {
      id = i.id;
      batch = batch;
      selection = selection;
      relative_path = relative;
      source_path = h.abspath source_path;
      normalized_path = normalize_path h source_path;
      basename = h.file_name source_path;
      snapshot = snapshot;
      result = result;
      last_seen_generation = generation;
    } in
    let same : answer.1.items
        ≡ update (is_item_at batch (normalize_path h source_path)) (rescanned row) s.items =
      ground (arith, found, there) in
    rw same (map-update (λ j. j.id) _ (rescanned row) (λ j. refl) s.items)

-- A transaction in a scan that keeps the files where it succeeds.
in_scan-item_ids :
    (v : Scan) (r : Result StoreError (ℕ × Store)) (next : ℕ × Store → Scan)
    → ((a : ℕ × Store) → (next a).store ≡ a.1)
    → ((a : ℕ × Store) → r ≡ ok a → item_ids a.1 ≡ item_ids v.store)
    → item_ids (store_of (in_scan v r next)) ≡ item_ids v.store
in_scan-item_ids v (ok a) next stores keeps = ap item_ids (stores a) ∙ keeps a refl
in_scan-item_ids v (err c) next stores keeps = refl

module _ (h : Host) (disk : Disk) (fresh_id : ℕ → ℕ) (is_cancelled : ℕ → Bool) where
  visit_new-item_ids :
      (batch generation : ℕ) (c : Candidate) (v : Scan)
      → item_ids (
          store_of (
            visit_new h disk fresh_id batch generation true c
              (get_item_by_path batch (normalize_path h c.source_path) v.store)
              v))
        ≡ item_ids v.store
  unfolding visit_new add_scan_issue
  visit_new-item_ids batch generation c v =
      elim (Option-cases (get_item_by_path batch (normalize_path h c.source_path) v.store)) [
        | inl e ↦ rw e (ground arith)
        | inr (i, e) ↦ rw e (
            if_ind (λ r. item_ids (store_of r) ≡ item_ids v.store) (unchanged i c.snapshot)
              (λ b. touch_item-item_ids i.id generation v.store)
              (λ b.
                in_scan-item_ids v _ _ (λ a. refl)
                  (upsert_item-item_ids h (fresh_id v.drawn) batch c.selection.id c.relative_path
                    c.source_path (latest (snapshot_of (disk.stat_after c.source_path)) c.snapshot)
                    (kept_result h disk fresh_id c (snapshot_of (disk.stat_after c.source_path)))
                    generation v.store i e)))
      ]

  visit-item_ids :
      (batch generation : ℕ) (f : Found) (v : Scan)
      → item_ids (store_of (visit h disk fresh_id is_cancelled batch generation true f v))
        ≡ item_ids v.store
  unfolding visit add_scan_issue
  visit-item_ids batch generation (Found.issue r reason path) v = ground arith
  visit-item_ids batch generation (Found.candidate c) v =
      let keeps : Result (ScanFailure × Store) Scan → Type 0 =
        λ r. item_ids (store_of r) ≡ item_ids v.store in
      if_ind keeps (is_cancelled v.asked) (λ b. refl)
        (λ b.
          if_ind keeps (any (λ q. q =ᵗ normalize_path h c.source_path) v.seen) (λ b'. refl)
            (λ b'.
              visit_new-item_ids batch generation c
                (record v { asked = suc v.asked; seen = normalize_path h c.source_path ∷ v.seen })))

  conclude-items :
      (batch generation : ℕ) (v : Scan)
      → (conclude h disk fresh_id is_cancelled batch generation true v).1.items
        ≡ update (is_lost batch generation) missing v.store.items
  unfolding conclude reconcile_unseen summary set_batch_state
  conclude-items batch generation v = ground arith

  pause_after-items :
      (batch : ℕ) (failure : ScanFailure) (s : Store)
      → (pause_after h disk fresh_id is_cancelled batch (failure, s)).1.items ≡ s.items
  unfolding set_batch_state
  pause_after-items batch ScanFailure.scan_cancelled s = ground arith
  pause_after-items batch ScanFailure.out_of_fuel s = refl
  pause_after-items batch (ScanFailure.store_failure c) s = refl

  start_scan-items :
      (batch : ℕ) (s : Store) (answer : (ℕ × Bool) × Store) (b : BatchRow)
      → get_batch batch s ≡ ok b
      → start_scan batch s ≡ ok answer
      → (answer.1.items ≡ s.items) × (answer.0.1 ≡ is_frozen b)
  unfolding start_scan
  start_scan-items batch s answer b eb = rw eb (ground arith)

  visited-item_ids :
      (fuel batch generation : ℕ) (frozen : Bool) (started : Store)
      → frozen ≡ true
      → item_ids
          (store_of (visited h disk fresh_id is_cancelled fuel batch generation frozen started))
        ≡ item_ids started
  visited-item_ids fuel batch generation false started e = absurd (ground arith)
  visited-item_ids fuel batch generation true started e =
      visit_selections-keeps h disk fresh_id is_cancelled batch generation true item_ids
        (visit-item_ids batch generation) fuel (list_selections batch started) (new_scan started)

  as_failure-items :
      (r : Result StoreError ScanSummary × Store)
      → (as_failure h disk fresh_id is_cancelled r).1.items ≡ r.1.items
  as_failure-items (ok v, s) = refl
  as_failure-items (err e, s) = refl

  ended-item_ids :
      (batch generation : ℕ) (frozen : Bool) (r : Result (ScanFailure × Store) Scan)
      → frozen ≡ true
      → item_ids (ended_scan h disk fresh_id is_cancelled batch generation frozen r).1
        ≡ item_ids (store_of r)
  ended-item_ids batch generation false r e = absurd (ground arith)
  ended-item_ids batch generation true (ok v) e =
      ap (map (λ i. i.id)) (as_failure-items _ ∙ conclude-items batch generation v)
      ∙ map-update (λ i. i.id) (is_lost batch generation) missing (λ i. refl) v.store.items
  ended-item_ids batch generation true (err (failure, s)) e =
      ap (map (λ i. i.id)) (pause_after-items batch failure s)

  -- However a scan of a frozen contribution ends (with a summary, cancelled, or with a failure of the
  -- store), the files that are kept are those from before it: none is added and none is removed.
  pub scan-item_ids :
      (fuel batch : ℕ) (s : Store) (b : BatchRow)
      → get_batch batch s ≡ ok b
      → is_frozen b ≡ true
      → item_ids (scan h disk fresh_id is_cancelled fuel batch s).1 ≡ item_ids s
  unfolding scan
  scan-item_ids fuel batch s b eb frozen_b = elim (Result-cases (start_scan batch s)) [
    | inr (c, es) ↦ rw (scan, es) refl
    | inl (((generation, frozen), started), es) ↦
        let (same_items, same) = start_scan-items batch s _ b eb es in
        let is_true : frozen ≡ true = same ∙ frozen_b in
        rw
          (scan-visited h disk fresh_id is_cancelled fuel batch generation frozen s started es _
            refl)
          (ended-item_ids batch generation frozen
              (visited h disk fresh_id is_cancelled fuel batch generation frozen started) is_true
            ∙ visited-item_ids fuel batch generation frozen started is_true
            ∙ ap (map (λ i. i.id)) same_items)
  ]
