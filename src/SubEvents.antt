-- ===== src/SubEvents.antt =====
-- apps/server/src/openfotos_server/events/sub_event_services.py: the sub-events of an event, and the
-- contributions under them. What `name__iexact` compares is a parameter; with it goes the unique column,
-- since a name is the same as itself.
pub mod Structure
pub mod Archival
pub mod Examples
use openfotos_platform.Prelude.{
  ℕ, Bool, true, false, not, ◌&&◌, ◌||◌, Option, none, some, List, [], ◌∷◌, ◌++◌, Text, Result, ok,
  err, or_raise, raise_if, ◌>>=◌, ◌>>◌, ◌==◌, ◌=ᵗ◌, ltb, leb, any, find, update, length,
  if◌then◌else◌,
}
use openfotos_platform.States.{EventState, one_of}
use openfotos_platform.Models.{
  Code, SubEvent, ContributionBatch, Db, AuditEntry, record_audit, save_event,
}
use openfotos_platform.Ingest.Rows.{has_control}
use openfotos_platform.Derivatives.{refresh_derivative_readiness}
use openfotos_platform.FaceIndex.{refresh_face_index_readiness}

abbrev pub max_sub_events : ℕ
max_sub_events = 50

-- The text functions: `strip`, and what the database's `iexact` takes as the same name.
pub record Naming : Type 0 where
  pub strip : Text → Text
  pub same_name : Text → Text → Bool

-- `_require_editable`
unfoldable pub require_editable : Db → Result Code (Unit {0})
require_editable db =
    raise_if
      (one_of db.event.state
        (EventState.published ∷ EventState.archived ∷ EventState.cancelled ∷ []))
      Code.event_structure_locked

-- `_validated_position`
unfoldable pub validated_position : ℕ → Result Code ℕ
validated_position n = if leb 1 n && leb n 32767 then ok n else err Code.invalid_sub_event_position

abbrev pub is_excluded_id : Option ℕ → ℕ → Bool
is_excluded_id none id = false
is_excluded_id (some x) id = id == x

abbrev pub same_flag : Bool → Bool → Bool
same_flag true b = b
same_flag false b = not b

unfoldable pub get_sub_event : (sub_event : ℕ) → Db → Result Code SubEvent
get_sub_event sub_event db = or_raise Code.row_missing (find (λ r. r.id == sub_event) db.sub_events)

-- `locked.save(...)`
abbrev pub save_sub_event : SubEvent → Db → Db
save_sub_event row db = record db {
  sub_events = update (λ r. r.id == row.id) (λ r. row) db.sub_events;
}

module _ (p : Naming) where
  open p use {strip, same_name}

  -- `_normalized_name`
  unfoldable pub normalized_name : Text → Result Code Text
  unfolding has_control
  normalized_name value =
      let name = strip value in
      if length name == 0 || (ltb 120 (length name) || has_control name)
      then err Code.invalid_sub_event_name
      else ok name

  -- `_require_unique_name`
  unfoldable pub require_unique_name :
      Text → (excluding : Option ℕ) → List SubEvent → Result Code (Unit {0})
  require_unique_name name excluding rows =
      raise_if (any (λ r. same_name r.name name && not (is_excluded_id excluding r.id)) rows)
        Code.sub_event_name_conflict

  -- `fresh` is the new row's random id.
  unfoldable pub create_sub_event : Text → (position fresh : ℕ) → Db → Result Code (SubEvent × Db)
  unfolding require_editable normalized_name require_unique_name validated_position
  create_sub_event name position fresh db = do
    require_editable db
    raise_if (leb max_sub_events (length db.sub_events)) Code.sub_event_limit
    normalized ← normalized_name name
    require_unique_name normalized none db.sub_events
    valid ← validated_position position
    raise_if (any (λ r. r.id == fresh) db.sub_events) Code.integrity_error
    let row : SubEvent = record {
      id = fresh;
      name = normalized;
      position = valid;
      is_archived = false;
    }
    ok (
      row,
      record_audit (AuditEntry.sub_event_created fresh)
          (record db { sub_events = db.sub_events ++ row ∷ [] }),
    )

  unfoldable pub update_sub_event :
      (sub_event : ℕ) → Text → (position : ℕ) → Db → Result Code (SubEvent × Db)
  unfolding require_editable get_sub_event normalized_name validated_position require_unique_name
  update_sub_event sub_event name position db = do
    require_editable db
    locked ← get_sub_event sub_event db
    normalized ← normalized_name name
    valid ← validated_position position
    require_unique_name normalized (some locked.id) db.sub_events
    let row = record locked { name = normalized; position = valid }
    ok (
      row,
      if locked.name =ᵗ normalized && locked.position == valid
          then db
          else record_audit (AuditEntry.sub_event_changed locked.id) (save_sub_event row db),
    )

-- The locked part of `set_sub_event_archived`, and whether it changed anything.
unfoldable pub archive_rows :
    (now sub_event : ℕ) → (archived : Bool) → Db → Result Code ((SubEvent × Bool) × Db)
unfolding require_editable get_sub_event
archive_rows now sub_event archived db = do
  require_editable db
  locked ← get_sub_event sub_event db
  if same_flag locked.is_archived archived then ok ((locked, false), db) else do
    let row = record locked { is_archived = archived }
    saved ←
        save_event now
          (record db.event {
            derivatives_ready_generation = none;
            face_index_ready_generation = none;
          })
          (save_sub_event row db)
    ok ((row, true), record_audit (AuditEntry.sub_event_archival locked.id archived) saved)

-- `transaction.on_commit`: each refresh is a transaction of its own, in their order, and one that raises
-- leaves what was committed and skips the next.
abbrev pub refresh_faces_after :
    (now : ℕ) → SubEvent → Db → Result Code (Bool × Db) → Result Code SubEvent × Db
refresh_faces_after now row before (ok (ready, db)) = (ok row, db)
refresh_faces_after now row before (err c) = (err c, before)

abbrev pub refresh_both_after :
    (now : ℕ) → SubEvent → Db → Result Code (Bool × Db) → Result Code SubEvent × Db
refresh_both_after now row before (ok (ready, db)) =
    refresh_faces_after now row db (refresh_face_index_readiness now db)
refresh_both_after now row before (err c) = (err c, before)

abbrev pub after_archival :
    (now : ℕ) → Db → Result Code ((SubEvent × Bool) × Db) → Result Code SubEvent × Db
after_archival now before (err c) = (err c, before)
after_archival now before (ok ((row, false), db)) = (ok row, db)
after_archival now before (ok ((row, true), db)) =
    refresh_both_after now row db (refresh_derivative_readiness now db)

unfoldable pub set_sub_event_archived :
    (now sub_event : ℕ) → (archived : Bool) → Db → Result Code SubEvent × Db
unfolding archive_rows
set_sub_event_archived now sub_event archived db =
    after_archival now db (archive_rows now sub_event archived db)

unfoldable pub reassign_contribution :
    (batch_id sub_event_id : ℕ) → Db → Result Code (ContributionBatch × Db)
unfolding require_editable
reassign_contribution batch_id sub_event_id db = do
  require_editable db
  target ←
      or_raise Code.sub_event_not_found
        (find (λ r. r.id == sub_event_id && not r.is_archived) db.sub_events)
  batch ← or_raise Code.batch_not_found (find (λ b. b.id == batch_id) db.batches)
  let row = record batch { sub_event = target.id }
  ok (
    row,
    if batch.sub_event == target.id
        then db
        else record_audit (AuditEntry.contribution_reassigned batch.id batch.sub_event target.id)
            (record db { batches = update (λ b. b.id == batch_id) (λ b. row) db.batches }),
  )
