-- ===== src/Checkpoint/Inventory.antt =====
-- The files of a contribution as the scans saw them, and the issues of its scans.
use openfotos_platform.Prelude.{
  ℕ, Bool, true, false, not, ◌&&◌, ◌||◌, Option, none, some, List, [], ◌∷◌, ◌++◌, Text, Result, ok,
  err, or_raise, raise_if, ◌>>=◌, ◌>>◌, ◌==◌, ◌=ᵗ◌, any, find, keep, update, total, if◌then◌else◌,
  sort_by, text_then_id,
}
use openfotos_platform.Checkpoint.{
  InventoryStatus, RejectionReason, ScanIssueReason, FileSnapshot, ValidationResult, ItemRow,
  ScanIssueRow, Store, StoreError, Host, normalize_path, update_or_raise, is_present,
}
use openfotos_platform.Checkpoint.Events.{delete_items, upsert}
use openfotos_platform.Checkpoint.Batches.{get_batch}

abbrev pub is_accepted : ItemRow → Bool
is_accepted i = elim i.result.status [ InventoryStatus.accepted ↦ true | _ ↦ false ]

abbrev pub is_rejected : ItemRow → Bool
is_rejected i = elim i.result.status [ InventoryStatus.rejected ↦ true | _ ↦ false ]

abbrev pub is_blocking : ItemRow → Bool
is_blocking i = elim i.result.status [ InventoryStatus.blocking ↦ true | _ ↦ false ]

abbrev pub is_item_at : (batch : ℕ) → (path : Text) → ItemRow → Bool
is_item_at batch path i = i.batch == batch && i.normalized_path =ᵗ path

unfoldable pub get_item_by_path : (batch : ℕ) → (path : Text) → Store → Option ItemRow
get_item_by_path batch path s = find (is_item_at batch path) s.items

unfoldable pub get_item : (item : ℕ) → Store → Result StoreError ItemRow
get_item item s = or_raise StoreError.unknown_item (find (λ i. i.id == item) s.items)

abbrev pub in_selection : Option ℕ → ItemRow → Bool
in_selection none i = true
in_selection (some selection) i = i.selection == selection

unfoldable pub list_items : (batch : ℕ) → (selection : Option ℕ) → Store → List ItemRow
list_items batch selection s =
    sort_by (λ a b. text_then_id a.normalized_path a.id b.normalized_path b.id)
      (keep (λ i. i.batch == batch && in_selection selection i) s.items)

-- `UPDATE SET`: all columns but the key, the contribution and the normalized path.
abbrev pub rescanned : ItemRow → ItemRow → ItemRow
rescanned new old = record new {
  id = old.id;
  batch = old.batch;
  normalized_path = old.normalized_path;
}

abbrev pub id_or : ℕ → Option ItemRow → ℕ
id_or fresh none = fresh
id_or fresh (some i) = i.id

-- A file that was seen before keeps its id. A new row has a contribution and a selection that exist.
unfoldable pub upsert_item :
    Host
    → (fresh batch selection : ℕ) → (relative_path source_path : Text) → FileSnapshot
    → ValidationResult
    → (generation : ℕ) → Store
    → Result StoreError (ℕ × Store)
unfolding get_item_by_path
upsert_item h fresh batch selection relative_path source_path snapshot result generation s =
    let path = normalize_path h source_path in
    let existing = get_item_by_path batch path s in
    let row : ItemRow = record {
      id = id_or fresh existing;
      batch = batch;
      selection = selection;
      relative_path = relative_path;
      source_path = h.abspath source_path;
      normalized_path = path;
      basename = h.file_name source_path;
      snapshot = snapshot;
      result = result;
      last_seen_generation = generation;
    } in
    if not (any (λ r. r.id == selection) s.selections)
      || (not (any (λ b. b.id == batch) s.batches)
          || (not (is_present existing) && any (λ i. i.id == fresh) s.items))
    then err StoreError.integrity_error
    else ok (
      id_or fresh existing,
      record s { items = upsert (is_item_at batch path) (rescanned row) row s.items },
    )

abbrev pub is_accepted_item : (item : ℕ) → ItemRow → Bool
is_accepted_item item i = i.id == item && (is_accepted i && is_present i.result.sha256)

abbrev pub with_md5 : Text → ItemRow → ItemRow
with_md5 md5 i = record i { result = record i.result { content_md5 = some md5 } }

unfoldable pub set_content_md5 : (item : ℕ) → (content_md5 : Text) → Store → Result StoreError Store
set_content_md5 item content_md5 s =
    update_or_raise StoreError.unknown_accepted_item (is_accepted_item item) (with_md5 content_md5)
      s.items
    >>= (λ rows. ok (record s { items = rows }))

unfoldable pub touch_item : (item generation : ℕ) → Store → Store
touch_item item generation s = record s {
  items = update (λ i. i.id == item) (λ i. record i { last_seen_generation = generation }) s.items;
}

abbrev pub is_unseen : (batch generation : ℕ) → ItemRow → Bool
is_unseen batch generation i = i.batch == batch && not (i.last_seen_generation == generation)

abbrev pub is_lost : (batch generation : ℕ) → ItemRow → Bool
is_lost batch generation i = is_unseen batch generation i && not (is_rejected i)

abbrev pub missing : ItemRow → ItemRow
missing i = record i {
  result = record i.result {
    status = InventoryStatus.blocking;
    reason = some RejectionReason.source_missing;
  };
}

-- How many rows a statement changes.
abbrev pub row_count {ℓ} : {A : Type ℓ} → (A → Bool) → List A → ℕ
row_count p rows = total (λ r. if p r then 1 else 0) rows

-- The number of changed rows, and the store.
unfoldable pub reconcile_unseen : (batch generation : ℕ) → (frozen : Bool) → Store → ℕ × Store
reconcile_unseen batch generation false s =
    (row_count (is_unseen batch generation) s.items, delete_items (is_unseen batch generation) s)
reconcile_unseen batch generation true s = (
  row_count (is_lost batch generation) s.items,
  record s { items = update (is_lost batch generation) missing s.items },
)

abbrev pub missing_selection : Option ℕ → Store → Bool
missing_selection none s = false
missing_selection (some selection) s = not (any (λ r. r.id == selection) s.selections)

-- `fresh` is the new row's random id.
unfoldable pub add_scan_issue :
    Host
    → (fresh batch : ℕ) → (selection : Option ℕ) → (generation : ℕ) → ScanIssueReason
    → (source_path : Text) → (blocking : Bool) → Store
    → Result StoreError Store
add_scan_issue h fresh batch selection generation reason source_path blocking s =
    if not (any (λ b. b.id == batch) s.batches)
      || (missing_selection selection s || any (λ r. r.id == fresh) s.scan_issues)
    then err StoreError.integrity_error
    else let row : ScanIssueRow = record {
      id = fresh;
      batch = batch;
      selection = selection;
      generation = generation;
      reason = reason;
      source_path = h.abspath source_path;
      blocking = blocking;
    } in
      ok (record s { scan_issues = s.scan_issues ++ row ∷ [] })

-- The issues of the contribution's last scan.
unfoldable pub list_scan_issues : (batch : ℕ) → Store → Result StoreError (List ScanIssueRow)
list_scan_issues batch s = do
  b ← get_batch batch s
  ok (
      sort_by (λ x y. text_then_id x.source_path x.id y.source_path y.id)
        (keep (λ r. r.batch == batch && r.generation == b.scan_generation) s.scan_issues))

abbrev pub relocated_item : Host → (path : Text) → FileSnapshot → ItemRow → ItemRow
relocated_item h path snapshot i = record i {
  source_path = h.abspath path;
  normalized_path = normalize_path h path;
  basename = h.file_name path;
  snapshot = snapshot;
}

-- One item after the other: another item of the contribution that has the path is an error.
unfoldable pub relocate_items :
    Host → List (ItemRow × Text × FileSnapshot) → List ItemRow → Result StoreError (List ItemRow)
relocate_items h [] rows = ok rows
relocate_items h ((item, path, snapshot) ∷ moves) rows =
    if any
      (λ i.
        not (i.id == item.id)
        && (is_item_at i.batch (normalize_path h path) i
            && any (λ r. r.id == item.id && r.batch == i.batch) rows))
      rows
    then err StoreError.integrity_error
    else relocate_items h moves
        (update (λ i. i.id == item.id) (relocated_item h path snapshot) rows)

unfoldable pub update_relocated_selection :
    Host
    → (selection : ℕ) → (path : Text) → List (ItemRow × Text × FileSnapshot)
    → Store
    → Result StoreError Store
update_relocated_selection h selection path moves s = do
  raise_if
      (any
        (λ r.
          not (r.id == selection)
          && (r.normalized_path =ᵗ normalize_path h path
              && any (λ q. q.id == selection && q.batch == r.batch) s.selections))
        s.selections)
      StoreError.integrity_error
  rows ← relocate_items h moves s.items
  ok (record s {
    selections =
        update (λ r. r.id == selection)
          (λ r. record r { source_path = h.abspath path; normalized_path = normalize_path h path })
          s.selections;
    items = rows;
  })
