-- ===== src/Checkpoint/Approval.antt =====
-- `summary` and `approve_batch`: what a photographer reviews, and the approval that freezes it.
pub mod Frozen
use openfotos_platform.Prelude.{
  ℕ, Bool, true, false, not, ◌&&◌, ◌||◌, Option, none, some, List, [], ◌∷◌, Text, Result, ok, err,
  or_raise, raise_if, ◌>>=◌, ◌>>◌, ◌==◌, ◌=ᵗ◌, ltb, any, find, keep, update, total, if◌then◌else◌,
}
use openfotos_platform.Checkpoint.{BatchState, BatchRow, ItemRow, ScanIssueRow, Store, StoreError}
use openfotos_platform.Checkpoint.Events.{get_event}
use openfotos_platform.Checkpoint.Batches.{get_batch}
use openfotos_platform.Checkpoint.Inventory.{is_accepted, is_rejected, is_blocking, row_count}

pub record ScanSummary : Type 0 where
  pub batch : ℕ
  pub state : BatchState
  pub accepted_count : ℕ
  pub accepted_bytes : ℕ
  pub rejected_count : ℕ
  pub rejected_bytes : ℕ
  pub blocking_item_count : ℕ
  pub blocking_issue_count : ℕ
  pub warning_count : ℕ
  pub changed_count : ℕ
  pub validated_count : ℕ
  pub reused_count : ℕ

-- What the scanner counted.
pub record ScanCounts : Type 0 where
  pub changed_count : ℕ
  pub validated_count : ℕ
  pub reused_count : ℕ

abbrev pub no_counts : ScanCounts
no_counts = record { changed_count = 0; validated_count = 0; reused_count = 0 }

-- `SUM(CASE WHEN ... THEN size_bytes ELSE 0 END)`
abbrev pub bytes_of : (ItemRow → Bool) → List ItemRow → ℕ
bytes_of p rows = total (λ i. if p i then i.snapshot.size_bytes else 0) rows

abbrev pub batch_items : (batch : ℕ) → Store → List ItemRow
batch_items batch s = keep (λ i. i.batch == batch) s.items

-- An issue of the contribution's last scan.
abbrev pub is_current_issue : BatchRow → ScanIssueRow → Bool
is_current_issue b r = r.batch == b.id && r.generation == b.scan_generation

abbrev pub summary_of_batch : BatchRow → ScanCounts → Store → ScanSummary
summary_of_batch b c s = record {
  batch = b.id;
  state = b.state;
  accepted_count = row_count is_accepted (batch_items b.id s);
  accepted_bytes = bytes_of is_accepted (batch_items b.id s);
  rejected_count = row_count is_rejected (batch_items b.id s);
  rejected_bytes = bytes_of is_rejected (batch_items b.id s);
  blocking_item_count = row_count is_blocking (batch_items b.id s);
  blocking_issue_count = row_count (λ r. is_current_issue b r && r.blocking) s.scan_issues;
  warning_count = row_count (λ r. is_current_issue b r && not r.blocking) s.scan_issues;
  changed_count = c.changed_count;
  validated_count = c.validated_count;
  reused_count = c.reused_count;
}

unfoldable pub summary : (batch : ℕ) → ScanCounts → Store → Result StoreError ScanSummary
summary batch c s = get_batch batch s >>= (λ b. ok (summary_of_batch b c s))

-- `blocking_item_count or blocking_issue_count`
abbrev pub has_blocking : ScanSummary → Bool
has_blocking v = not (v.blocking_item_count == 0 && v.blocking_issue_count == 0)

abbrev pub can_approve : ScanSummary → Bool
can_approve v = not (v.accepted_count == 0) && not (has_blocking v)

abbrev pub is_needs_review : BatchState → Bool
is_needs_review BatchState.needs_review = true
is_needs_review _ = false

-- `COALESCE(frozen_at, ?)`
abbrev pub first_set : Option ℕ → ℕ → Option ℕ
first_set none n = some n
first_set (some m) n = some m

abbrev pub approved_row : (now : ℕ) → BatchRow → BatchRow
approved_row now b = record b {
  state = BatchState.approved;
  frozen_at = first_set b.frozen_at now;
  approved_at = some now;
}

unfoldable pub approve_batch :
    (now batch : ℕ) → (supported_profile_id : Text) → Store → Result StoreError Store
unfolding get_batch get_event summary
approve_batch now batch supported_profile_id s = do
  b ← get_batch batch s
  raise_if (not (is_needs_review b.state)) StoreError.not_scanned
  v ← summary batch no_counts s
  raise_if (has_blocking v) StoreError.unresolved_issues
  raise_if (v.accepted_count == 0) StoreError.nothing_accepted
  event ← get_event b.event s
  raise_if (not (event.processing_profile_id =ᵗ supported_profile_id)) StoreError.profile_mismatch
  raise_if (ltb event.storage_limit_bytes v.accepted_bytes) StoreError.over_allowance
  ok (record s { batches = update (λ r. r.id == batch) (approved_row now) s.batches })
