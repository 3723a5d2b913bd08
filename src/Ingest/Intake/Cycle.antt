-- ===== src/Ingest/Intake/Cycle.antt =====
-- An intake that is closed and opened again.
use openfotos_platform.Prelude.{none, ℕ, ◌+◌, ◌≡◌, refl, true, false, ok, arith, ◌⊎◌}
use openfotos_platform.States.{EventState, IntakeState, is_open}
use openfotos_platform.Models.{DesktopSession, Event, Db, AuditEntry, record_audit, save_event}
use openfotos_platform.Ingest.Counters.{IsExact, CountersExact, save_event-exact}
use openfotos_platform.Ingest.Rows.{event_for_session}
use openfotos_platform.Lifecycle.{state_for_reopened_intake}
use openfotos_platform.Ingest.Intake.{close_intake, reopened, reopen_intake}

-- What a close of an open intake writes.
closed_event :
    (s : DesktopSession) (event_id now : ℕ) (db db' : Db) (e : Event)
    → is_open db.event.intake_state ≡ true
    → CountersExact db
    → close_intake s event_id now db ≡ ok (e, db')
    → (db'.event ≡ record db.event { intake_state = IntakeState.closed; updated_at = now })
      × (db'.objects ≡ db.objects)
      × (db'.memberships ≡ db.memberships)
      × ((db.event.state ≡ EventState.draft) ⊎ (db.event.state ≡ EventState.uploading))
      × (event_for_session s event_id db ≡ ok db.event)
unfolding close_intake event_for_session save_event
closed_event s event_id now db db' e h x c = ground arith

reopened-IsExact :
    (e : Event) (db : Db)
    → IsExact e db.objects
    → IsExact (reopened EventState.uploading e) db.objects
reopened-IsExact e db x = ground arith

-- The same session finds the closed event.
session_again :
    (s : DesktopSession) (event_id now : ℕ) (db closed : Db)
    → event_for_session s event_id db ≡ ok db.event
    → closed.event ≡ record db.event { intake_state = IntakeState.closed; updated_at = now }
    → closed.memberships ≡ db.memberships
    → event_for_session s event_id closed ≡ ok closed.event
unfolding event_for_session
session_again s event_id now db closed found event memberships =
    rw (event, memberships) (ground (arith, found))

reopens_uploading :
    (state : EventState)
    → (state ≡ EventState.draft) ⊎ (state ≡ EventState.uploading)
    → state_for_reopened_intake state ≡ ok EventState.uploading
unfolding state_for_reopened_intake
reopens_uploading state h = ground arith

reopen_result :
    (s : DesktopSession) (event_id later : ℕ) (db saved : Db)
    → event_for_session s event_id db ≡ ok db.event
    → is_open db.event.intake_state ≡ false
    → state_for_reopened_intake db.event.state ≡ ok EventState.uploading
    → save_event later (reopened EventState.uploading db.event) db ≡ ok saved
    → reopen_intake s event_id later db
      ≡ ok (
        saved.event,
        record_audit
            (AuditEntry.intake_reopened db.event.intake_generation saved.event.intake_generation)
            saved,
      )
unfolding reopen_intake
reopen_result s event_id later db saved found shut next stored =
    rw (reopen_intake, found, shut, next, stored) refl

-- From exact totals, an open intake that was closed opens again without a raise: in the next
-- generation, in Uploading, with no manifest and no readiness, and with exact totals.
pub close_then_reopen :
    (s : DesktopSession) (event_id now later : ℕ) (db closed : Db) (e : Event)
    → is_open db.event.intake_state ≡ true
    → CountersExact db
    → close_intake s event_id now db ≡ ok (e, closed)
    → (is_open closed.event.intake_state ≡ false)
      × (db' : Db) × (reopen_intake s event_id later closed ≡ ok (db'.event, db'))
      × (db'.event.intake_state ≡ IntakeState.open_)
      × (db'.event.state ≡ EventState.uploading)
      × (db'.event.intake_generation ≡ db.event.intake_generation + 1)
      × (db'.event.current_ingestion_manifest ≡ none)
      × (db'.event.derivatives_ready_generation ≡ none)
      × (db'.event.face_index_ready_generation ≡ none)
      × CountersExact db'
close_then_reopen s event_id now later db closed e h x c =
    let (event, objects, memberships, from, found) =
      closed_event s event_id now db closed e h x c in
    let shut : is_open closed.event.intake_state ≡ false = ground (arith, event) in
    let exact : CountersExact closed = ground (arith, event, objects) in
    let (saved, stored, y, rows, reached) =
      save_event-exact later (reopened EventState.uploading closed.event) closed
        (reopened-IsExact closed.event closed exact) in
    (
      shut,
      record_audit
          (AuditEntry.intake_reopened closed.event.intake_generation saved.event.intake_generation)
          saved,
      reopen_result s event_id later closed saved
          (session_again s event_id now db closed found event memberships) shut
          (reopens_uploading closed.event.state (ground (arith, event))) stored,
      ground (arith, reached),
      ground (arith, reached),
      ground (arith, event, reached),
      ground (arith, reached),
      ground (arith, reached),
      ground (arith, reached),
      y,
    )
