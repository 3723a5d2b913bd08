-- ===== src/Checkpoint/Batches.antt =====
-- The contributions of a desktop and their selections, and the steps of a scan.
pub mod Found
pub mod Again
use openfotos_platform.Prelude.{
  ℕ, ◌+◌, Bool, true, false, not, ◌&&◌, ◌||◌, Option, none, some, List, [], ◌∷◌, ◌++◌, Text, Result,
  ok, err, or_raise, raise_if, ◌>>=◌, ◌>>◌, ◌==◌, ◌=ᵗ◌, ltb, leb, any, find, keep, update, length,
  if◌then◌else◌, sort_by,
}
use openfotos_platform.Models.{is_set}
use openfotos_platform.Checkpoint.{
  BatchState, SelectionKind, BatchRow, SelectionRow, Store, StoreError, Host, normalize_path,
  update_or_raise,
}
use openfotos_platform.Checkpoint.Events.{get_event, delete_items}

abbrev pub is_frozen : BatchRow → Bool
is_frozen b = is_set b.frozen_at

unfoldable pub get_batch : (batch : ℕ) → Store → Result StoreError BatchRow
get_batch batch s = or_raise StoreError.unknown_batch (find (λ b. b.id == batch) s.batches)

unfoldable pub get_selection : (selection : ℕ) → Store → Result StoreError SelectionRow
get_selection selection s =
    or_raise StoreError.unknown_selection (find (λ r. r.id == selection) s.selections)

abbrev pub is_active_sub_event : (event sub_event : ℕ) → Store → Bool
is_active_sub_event event sub_event s =
    any (λ r. r.id == sub_event && (r.event == event && r.is_active)) s.sub_events

-- `ORDER BY created_at, id`
abbrev pub created_before : (t i u j : ℕ) → Bool
created_before t i u j = ltb t u || (t == u && leb i j)

unfoldable pub list_batches : (event : ℕ) → Store → List BatchRow
list_batches event s =
    sort_by (λ a b. created_before a.created_at a.id b.created_at b.id)
      (keep (λ b. b.event == event) s.batches)

unfoldable pub list_selections : (batch : ℕ) → Store → List SelectionRow
list_selections batch s =
    sort_by (λ a b. created_before a.created_at a.id b.created_at b.id)
      (keep (λ r. r.batch == batch) s.selections)

-- `fresh` is the new row's random id.
unfoldable pub create_batch :
    Host → (now fresh event sub_event : ℕ) → (label : Text) → Store → Result StoreError (ℕ × Store)
unfolding get_event
create_batch h now fresh event sub_event label s = do
  cached ← get_event event s
  raise_if (not (is_active_sub_event event sub_event s)) StoreError.inactive_sub_event
  raise_if (any (λ b. b.id == fresh) s.batches) StoreError.integrity_error
  let row : BatchRow = record {
    id = fresh;
    event = event;
    installation_id = s.installation_id;
    sub_event = sub_event;
    state = BatchState.draft;
    label = h.strip label;
    scan_generation = 0;
    frozen_at = none;
    approved_at = none;
    created_at = now;
  }
  ok (fresh, record s { batches = s.batches ++ row ∷ [] })

unfoldable pub update_batch_sub_event : (batch sub_event : ℕ) → Store → Result StoreError Store
unfolding get_batch
update_batch_sub_event batch sub_event s = do
  b ← get_batch batch s
  raise_if (not (is_active_sub_event b.event sub_event s)) StoreError.inactive_sub_event
  ok (record s {
    batches = update (λ r. r.id == batch) (λ r. record r { sub_event = sub_event }) s.batches;
  })

-- `_set_batch_state`
unfoldable pub set_batch_state : (batch : ℕ) → BatchState → Store → Result StoreError Store
set_batch_state batch state s =
    update_or_raise StoreError.unknown_batch (λ b. b.id == batch) (λ b. record b { state = state })
      s.batches
    >>= (λ rows. ok (record s { batches = rows }))

abbrev pub is_selection_of : (batch : ℕ) → (path : Text) → SelectionRow → Bool
is_selection_of batch path r = r.batch == batch && r.normalized_path =ᵗ path

-- `_add_selection`: a path that is selected already keeps its id.
unfoldable pub add_selection :
    Host
    → (now fresh batch : ℕ) → (path : Text) → SelectionKind
    → Store
    → Result StoreError (ℕ × Store)
unfolding get_batch
add_selection h now fresh batch path kind s = do
  b ← get_batch batch s
  raise_if (is_frozen b) StoreError.frozen_additions
  elim (find (is_selection_of batch (normalize_path h path)) s.selections) [
    | some existing ↦ ok (existing.id, s)
    | none ↦
        if any (λ r. r.id == fresh) s.selections
        then err StoreError.integrity_error
        else let row : SelectionRow = record {
          id = fresh;
          batch = batch;
          kind = kind;
          source_path = h.abspath path;
          normalized_path = normalize_path h path;
          created_at = now;
        } in
          ok (fresh, record s { selections = s.selections ++ row ∷ [] })
  ]

abbrev pub add_folder :
    Host → (now fresh batch : ℕ) → (path : Text) → Store → Result StoreError (ℕ × Store)
add_folder h now fresh batch path s = add_selection h now fresh batch path SelectionKind.folder s

-- `add_files`: one transaction for each path, so that those before a failure stay. The new ids and the
-- times of the calls come with the paths.
unfoldable pub add_files :
    Host → (batch : ℕ) → List (ℕ × ℕ × Text) → Store → Result StoreError (List ℕ) × Store
add_files h batch [] s = (ok [], s)
add_files h batch ((now, fresh, path) ∷ paths) s =
    elim (add_selection h now fresh batch path SelectionKind.file s) [
      | err e ↦ (err e, s)
      | ok (id, saved) ↦
          let (answer, final) = add_files h batch paths saved in
          (answer >>= (λ ids. ok (id ∷ ids)), final)
    ]

abbrev pub is_option_of : Option ℕ → ℕ → Bool
is_option_of none n = false
is_option_of (some m) n = m == n

unfoldable pub remove_selection : (selection : ℕ) → Store → Result StoreError Store
unfolding get_batch get_selection
remove_selection selection s = do
  r ← get_selection selection s
  b ← get_batch r.batch s
  raise_if (is_frozen b) StoreError.frozen_removals
  let rest = delete_items (λ i. i.selection == selection) s
  ok (record rest {
    selections = keep (λ r. not (r.id == selection)) s.selections;
    scan_issues = keep (λ r. not (is_option_of r.selection selection)) s.scan_issues;
  })

-- The server holds the contribution.
abbrev pub is_server_reserved : BatchState → Bool
is_server_reserved BatchState.reserved = true
is_server_reserved BatchState.uploading = true
is_server_reserved BatchState.complete = true
is_server_reserved BatchState.not_included = true
is_server_reserved _ = false

-- The generation of the scan, and whether the contribution is frozen.
unfoldable pub start_scan : (batch : ℕ) → Store → Result StoreError ((ℕ × Bool) × Store)
unfolding get_batch
start_scan batch s = do
  b ← get_batch batch s
  raise_if (is_server_reserved b.state) StoreError.server_reserved
  ok (
    (b.scan_generation + 1, is_frozen b),
    record s {
      scan_issues = keep (λ r. not (r.batch == batch)) s.scan_issues;
      batches =
          update (λ r. r.id == batch)
            (λ r. record r { state = BatchState.scanning; scan_generation = b.scan_generation + 1 })
            s.batches;
    },
  )

abbrev pub pause_scan : (batch : ℕ) → Store → Result StoreError Store
pause_scan batch s = set_batch_state batch BatchState.paused s

abbrev pub finish_scan : (batch : ℕ) → (requires_review : Bool) → Store → Result StoreError Store
finish_scan batch requires_review s =
    set_batch_state batch (if requires_review then BatchState.needs_review else BatchState.approved)
      s
