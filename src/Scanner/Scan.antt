-- ===== src/Scanner/Scan.antt =====
-- `InventoryScanner.scan`: one pass over what the selections hold. The reports of progress, and the
-- counts that only they use, are left out.
use openfotos_platform.Prelude.{
  ℕ, suc, ◌+◌, Bool, true, false, not, ◌&&◌, ◌||◌, Option, none, some, List, [], ◌∷◌, Text, Result,
  ok, err, ◌>>=◌, if◌then◌else◌, any, ◌==◌, ◌=ᵗ◌,
}
use openfotos_platform.Checkpoint.{
  ScanIssueReason, RejectionReason, InventoryStatus, FileSnapshot, ValidationResult, SelectionRow,
  ItemRow, Store, StoreError, Host, normalize_path, is_present,
}
use openfotos_platform.Checkpoint.Batches.{start_scan, pause_scan, finish_scan, list_selections}
use openfotos_platform.Checkpoint.Inventory.{
  get_item_by_path, upsert_item, touch_item, add_scan_issue, reconcile_unseen, is_blocking,
}
use openfotos_platform.Checkpoint.Approval.{ScanSummary, ScanCounts, summary}
use openfotos_platform.Scanner.{Disk, Details, Candidate, Found, discover}

pub data ScanFailure : Type 0 where
  scan_cancelled : ScanFailure
  -- The fuel of a walk is spent.
  out_of_fuel : ScanFailure
  store_failure : StoreError → ScanFailure

-- The variables of a scan. `asked` counts the questions whether it is cancelled, and `drawn` the
-- random ids.
pub record Scan : Type 0 where
  pub store : Store
  pub seen : List Text
  pub changed_count : ℕ
  pub validated_count : ℕ
  pub reused_count : ℕ
  pub asked : ℕ
  pub drawn : ℕ

abbrev pub new_scan : Store → Scan
new_scan s = record {
  store = s;
  seen = [];
  changed_count = 0;
  validated_count = 0;
  reused_count = 0;
  asked = 0;
  drawn = 0;
}

abbrev pub same_snapshot : FileSnapshot → FileSnapshot → Bool
same_snapshot a b =
    a.size_bytes == b.size_bytes && (a.modified_ns == b.modified_ns && a.changed_ns == b.changed_ns)

-- `_unchanged`
abbrev pub unchanged : ItemRow → FileSnapshot → Bool
unchanged i snapshot = same_snapshot i.snapshot snapshot && not (is_blocking i)

abbrev pub bare_result : InventoryStatus → RejectionReason → ValidationResult
bare_result status reason = record {
  status = status;
  reason = some reason;
  content_type = none;
  sha256 = none;
  content_md5 = none;
  width = none;
  height = none;
}

-- The snapshot after the validation, if the file is still there.
abbrev pub snapshot_of : Option Details → Option FileSnapshot
snapshot_of none = none
snapshot_of (some d) = some d.snapshot

abbrev pub still : Option FileSnapshot → FileSnapshot → Bool
still none before = false
still (some now) before = same_snapshot now before

abbrev pub latest : Option FileSnapshot → FileSnapshot → FileSnapshot
latest none before = before
latest (some now) before = now

-- A transaction of the store, in a scan: a failure leaves what was committed.
abbrev pub in_scan {ℓ} :
    {A : Type ℓ} → Scan → Result StoreError A → (A → Scan) → Result (ScanFailure × Store) Scan
in_scan v (ok a) next = ok (next a)
in_scan v (err e) next = err (ScanFailure.store_failure e, v.store)

module _ (h : Host) (disk : Disk) (fresh_id : ℕ → ℕ) where
  -- `_validate_candidate`
  abbrev pub or_unreadable : Option ValidationResult → ValidationResult
  or_unreadable none = bare_result InventoryStatus.blocking RejectionReason.source_unreadable
  or_unreadable (some result) = result

  abbrev pub validate_candidate : Candidate → ValidationResult
  validate_candidate c =
      if c.linked
      then bare_result InventoryStatus.rejected RejectionReason.symbolic_link
      else if not c.is_regular
      then bare_result InventoryStatus.rejected RejectionReason.unsupported_file_type
      else or_unreadable (disk.validate c.source_path c.snapshot.size_bytes)

  -- The result that is kept: a file that changed under the validation blocks.
  abbrev pub kept_result : Candidate → (after : Option FileSnapshot) → ValidationResult
  kept_result c after =
      if still after c.snapshot
      then validate_candidate c
      else bare_result InventoryStatus.blocking RejectionReason.file_changed_during_scan

  abbrev pub is_known_unchanged : Option ItemRow → FileSnapshot → Bool
  is_known_unchanged none snapshot = false
  is_known_unchanged (some i) snapshot = unchanged i snapshot

  abbrev pub touched : (generation : ℕ) → Option ItemRow → Store → Store
  touched generation none s = s
  touched generation (some i) s = touch_item i.id generation s

  -- A candidate that was not seen before in this scan.
  unfoldable pub visit_new :
      (batch generation : ℕ)
      → (frozen : Bool) → Candidate
      → (existing : Option ItemRow) → Scan
      → Result (ScanFailure × Store) Scan
  visit_new batch generation frozen c existing v =
      if frozen && not (is_present existing)
      then in_scan v
          (add_scan_issue h (fresh_id v.drawn) batch (some c.selection.id) generation
            ScanIssueReason.new_file_after_freeze c.source_path false v.store)
          (λ s. record v { store = s; drawn = suc v.drawn })
      else if is_known_unchanged existing c.snapshot
      then ok (record v {
        store = touched generation existing v.store;
        reused_count = suc v.reused_count;
      })
      else let after = snapshot_of (disk.stat_after c.source_path) in
        in_scan v
          (upsert_item h (fresh_id v.drawn) batch c.selection.id c.relative_path c.source_path
            (latest after c.snapshot) (kept_result c after) generation v.store)
          (λ saved. record v {
            store = saved.1;
            drawn = suc v.drawn;
            validated_count = suc v.validated_count;
            changed_count = if is_present existing then suc v.changed_count else v.changed_count;
          })

  module _ (is_cancelled : ℕ → Bool) where
    unfoldable pub visit :
        (batch generation : ℕ) → (frozen : Bool) → Found → Scan → Result (ScanFailure × Store) Scan
    unfolding visit_new
    visit batch generation frozen (Found.issue r reason path) v =
        in_scan v
          (add_scan_issue h (fresh_id v.drawn) batch (some r.id) generation reason path true
            v.store)
          (λ s. record v { store = s; drawn = suc v.drawn })
    visit batch generation frozen (Found.candidate c) v =
        let path = normalize_path h c.source_path in
        let asked = record v { asked = suc v.asked } in
        if is_cancelled v.asked
        then err (ScanFailure.scan_cancelled, v.store)
        else if any (λ q. q =ᵗ path) v.seen
        then ok asked
        else visit_new batch generation frozen c (get_item_by_path batch path v.store)
            (record asked { seen = path ∷ v.seen })

    unfoldable pub visit_all :
        (batch generation : ℕ)
        → (frozen : Bool) → List Found
        → Scan
        → Result (ScanFailure × Store) Scan
    unfolding visit
    visit_all batch generation frozen [] v = ok v
    visit_all batch generation frozen (f ∷ fs) v =
        visit batch generation frozen f v >>= (λ w. visit_all batch generation frozen fs w)

    abbrev pub or_out_of_fuel :
        Scan
        → Option (List Found)
        → (List Found → Result (ScanFailure × Store) Scan)
        → Result (ScanFailure × Store) Scan
    or_out_of_fuel v none next = err (ScanFailure.out_of_fuel, v.store)
    or_out_of_fuel v (some found) next = next found

    unfoldable pub visit_selections :
        (fuel batch generation : ℕ)
        → (frozen : Bool) → List SelectionRow
        → Scan
        → Result (ScanFailure × Store) Scan
    unfolding visit_all discover
    visit_selections fuel batch generation frozen [] v = ok v
    visit_selections fuel batch generation frozen (r ∷ rs) v =
        or_out_of_fuel v (discover disk fuel r) (λ found. visit_all batch generation frozen found v)
        >>= (λ w. visit_selections fuel batch generation frozen rs w)

    abbrev pub counts_of : Scan → ScanCounts
    counts_of v = record {
      changed_count = v.changed_count;
      validated_count = v.validated_count;
      reused_count = v.reused_count;
    }

    abbrev pub requires_review : (frozen : Bool) → ScanSummary → Bool
    requires_review frozen v =
        not frozen
        || (not (v.changed_count == 0)
            || (not (v.blocking_item_count == 0) || not (v.blocking_issue_count == 0)))

    -- The end of a scan that saw everything.
    unfoldable pub conclude :
        (batch generation : ℕ) → (frozen : Bool) → Scan → Result StoreError ScanSummary × Store
    conclude batch generation frozen v =
        let (lost, reconciled) = reconcile_unseen batch generation frozen v.store in
        let counts = record (counts_of v) { changed_count = v.changed_count + lost } in
        elim (summary batch counts reconciled) [
          | err e ↦ (err e, reconciled)
          | ok provisional ↦
              elim (finish_scan batch (requires_review frozen provisional) reconciled) [
                | err e ↦ (err e, reconciled)
                | ok finished ↦ (summary batch counts finished, finished)
              ]
        ]

    abbrev pub as_failure :
        Result StoreError ScanSummary × Store → Result ScanFailure ScanSummary × Store
    as_failure (ok v, s) = (ok v, s)
    as_failure (err e, s) = (err (ScanFailure.store_failure e), s)

    -- A cancelled scan is paused.
    abbrev pub pause_after :
        (batch : ℕ) → ScanFailure × Store → Result ScanFailure ScanSummary × Store
    pause_after batch (ScanFailure.scan_cancelled, s) = elim (pause_scan batch s) [
      | ok w ↦ (err ScanFailure.scan_cancelled, w)
      | err e ↦ (err (ScanFailure.store_failure e), s)
    ]
    pause_after batch (failure, s) = (err failure, s)

    unfoldable pub scan : (fuel batch : ℕ) → Store → Result ScanFailure ScanSummary × Store
    unfolding visit_selections conclude
    scan fuel batch s = elim (start_scan batch s) [
      | err e ↦ (err (ScanFailure.store_failure e), s)
      | ok ((generation, frozen), started) ↦
          elim (visit_selections fuel batch generation frozen (list_selections batch started)
            (new_scan started)) [
              | err failure ↦ pause_after batch failure
              | ok v ↦ as_failure (conclude batch generation frozen v)
            ]
    ]
