-- ===== src/Checkpoint/Events.antt =====
-- The cached events: `cache_event`, `get_event`, `list_events`, `delete_local_event` and the label of the
-- workstation.
pub mod Snapshot
use openfotos_platform.Prelude.{
  ℕ, Bool, true, false, not, ◌&&◌, ◌||◌, Option, none, some, List, [], ◌∷◌, ◌++◌, map, Text, Result,
  ok, err, or_raise, raise_if, ◌>>=◌, ◌>>◌, ◌==◌, ◌=ᵗ◌, ltb, any, find, keep, update, length,
  if◌then◌else◌, sort_by, text_before, text_then_id,
}
use openfotos_platform.Checkpoint.{
  EventCache, EventRow, SubEventCache, SubEventRow, BatchRow, Store, StoreError, Host, ItemRow,
}

-- The sub-events of `_sub_events_for`, by position, name and id.
abbrev pub sub_event_order : SubEventRow → SubEventRow → Bool
sub_event_order a b =
    ltb a.position b.position || (a.position == b.position && text_then_id a.name a.id b.name b.id)

unfoldable pub sub_events_for : (event : ℕ) → Store → List SubEventCache
sub_events_for event s =
    map (λ r. record { id = r.id; name = r.name; position = r.position })
      (sort_by sub_event_order (keep (λ r. r.event == event && r.is_active) s.sub_events))

-- `_event_from_row`
abbrev pub event_from_row : EventRow → Store → EventCache
event_from_row row s = record {
  id = row.id;
  name = row.name;
  storage_limit_bytes = row.storage_limit_bytes;
  processing_profile_id = row.processing_profile_id;
  face_model_id = row.face_model_id;
  face_index_ready = row.face_index_ready;
  server_url = row.server_url;
  reserved_original_bytes = row.reserved_original_bytes;
  verified_original_bytes = row.verified_original_bytes;
  intake_state = row.intake_state;
  intake_generation = row.intake_generation;
  device_label = row.device_label;
  sub_events = sub_events_for row.id s;
  preview_policy = row.preview_policy;
}

unfoldable pub get_event : (event : ℕ) → Store → Result StoreError EventCache
get_event event s = do
  row ← or_raise StoreError.unknown_event (find (λ r. r.id == event) s.events)
  ok (event_from_row row s)

unfoldable pub list_events : Store → List EventCache
list_events s =
    map (λ r. event_from_row r s) (sort_by (λ a b. text_then_id a.name a.id b.name b.id) s.events)

unfoldable pub set_workstation_label : Text → Store → Store
set_workstation_label label s = record s { workstation_label = some label }

-- `{event.device_label for event in ... if event.device_label}`
abbrev pub distinct_labels : List EventCache → List Text
distinct_labels [] = []
distinct_labels (e ∷ es) =
    let rest = distinct_labels es in
    if length e.device_label == 0 || any (λ l. l =ᵗ e.device_label) rest
    then rest
    else e.device_label ∷ rest

-- The label that all the cached events agree on is kept.
abbrev pub adopt_label : List Text → Store → Text × Store
adopt_label (label ∷ []) s = (label, set_workstation_label label s)
adopt_label _ s = ([], s)

unfoldable pub workstation_label : Store → Text × Store
unfolding set_workstation_label list_events
workstation_label s = elim s.workstation_label [
  | some label ↦ (label, s)
  | none ↦ adopt_label (distinct_labels (list_events s)) s
]

-- Insert a row, or change the one that has its key.
abbrev pub upsert {ℓ} : {A : Type ℓ} → (A → Bool) → (A → A) → A → List A → List A
upsert p f row rows = if any p rows then update p f rows else rows ++ row ∷ []

-- `INSERT INTO sub_events ... ON CONFLICT(id) DO UPDATE`: positions are positive, and names are unique
-- in an event.
unfoldable pub upsert_sub_event :
    (event : ℕ) → SubEventCache → List SubEventRow → Result StoreError (List SubEventRow)
upsert_sub_event event c rows =
    if c.position == 0
      || any (λ r. not (r.id == c.id) && (r.event == event && r.name =ᵗ c.name)) rows
    then err StoreError.integrity_error
    else let row : SubEventRow = record {
      id = c.id;
      event = event;
      name = c.name;
      position = c.position;
      is_active = true;
    } in
      ok (upsert (λ r. r.id == c.id) (λ r. row) row rows)

unfoldable pub upsert_sub_events :
    (event : ℕ) → List SubEventCache → List SubEventRow → Result StoreError (List SubEventRow)
upsert_sub_events event [] rows = ok rows
upsert_sub_events event (c ∷ cs) rows =
    upsert_sub_event event c rows >>= (λ saved. upsert_sub_events event cs saved)

module _ (h : Host) where
  open h use {strip}

  abbrev pub row_of_event : EventCache → EventRow
  row_of_event e = record {
    id = e.id;
    name = strip e.name;
    storage_limit_bytes = e.storage_limit_bytes;
    processing_profile_id = strip e.processing_profile_id;
    server_url = strip e.server_url;
    reserved_original_bytes = e.reserved_original_bytes;
    verified_original_bytes = e.verified_original_bytes;
    intake_state = e.intake_state;
    intake_generation = e.intake_generation;
    device_label = strip e.device_label;
    preview_policy = e.preview_policy;
    face_model_id = e.face_model_id;
    face_index_ready = e.face_index_ready;
  }

  -- `CASE WHEN excluded.device_label = '' THEN events.device_label`
  abbrev pub keep_label : EventRow → EventRow → EventRow
  keep_label new old = record new {
    device_label = if length new.device_label == 0 then old.device_label else new.device_label;
  }

  unfoldable pub cache_event : EventCache → Store → Result StoreError Store
  unfolding upsert_sub_events
  cache_event e s = do
    raise_if
        (length (strip e.name) == 0
          || (length (strip e.processing_profile_id) == 0 || length (strip e.face_model_id) == 0))
        StoreError.event_text_required
    raise_if (e.storage_limit_bytes == 0 || e.intake_generation == 0) StoreError.integrity_error
    saved ←
        upsert_sub_events e.id e.sub_events
          (update (λ r. r.event == e.id) (λ r. record r { is_active = false }) s.sub_events)
    ok (record s {
      events = upsert (λ r. r.id == e.id) (keep_label (row_of_event e)) (row_of_event e) s.events;
      sub_events = saved;
    })

-- `ON DELETE CASCADE` below a set of items.
abbrev pub delete_items : (ItemRow → Bool) → Store → Store
delete_items gone s =
    let lost : ℕ → Bool = λ item. any (λ i. i.id == item && gone i) s.items in
    record s {
      items = keep (λ i. not (gone i)) s.items;
      uploads = keep (λ u. not (lost u.item)) s.uploads;
      derivatives = keep (λ d. not (lost d.item)) s.derivatives;
      faces = keep (λ f. not (lost f.item)) s.faces;
    }

-- A batch of another event that names a sub-event of this one: `ON DELETE RESTRICT`.
abbrev pub holds_sub_event : (event : ℕ) → Store → BatchRow → Bool
holds_sub_event event s b =
    not (b.event == event) && any (λ r. r.id == b.sub_event && r.event == event) s.sub_events

-- The rows of the event's batches go with the event, and then their directories.
unfoldable pub delete_local_event : (event : ℕ) → Store → Result StoreError Store
delete_local_event event s = do
  raise_if (not (any (λ r. r.id == event) s.events)) StoreError.unknown_event
  raise_if (any (holds_sub_event event s) s.batches) StoreError.integrity_error
  let in_event : ℕ → Bool = λ batch. any (λ b. b.id == batch && b.event == event) s.batches
  let rest = delete_items (λ i. in_event i.batch) s
  ok (record rest {
    events = keep (λ r. not (r.id == event)) s.events;
    sub_events = keep (λ r. not (r.event == event)) s.sub_events;
    batches = keep (λ b. not (b.event == event)) s.batches;
    selections = keep (λ r. not (in_event r.batch)) s.selections;
    scan_issues = keep (λ r. not (in_event r.batch)) s.scan_issues;
    derivative_caches = keep (λ b. not (in_event b)) s.derivative_caches;
  })
