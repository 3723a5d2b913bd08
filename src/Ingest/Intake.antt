-- ===== src/Ingest/Intake.antt =====
-- `close_intake`, `reopen_intake` and `revoke_installation` of ingestion_services.py.
pub mod Cycle
pub mod Revoked
use openfotos_platform.Prelude.{
  ℕ, ◌+◌, not, none, some, [], ◌∷◌, Result, ok, or_raise, raise_if, ◌>>=◌, ◌>>◌, ◌==◌, find, update,
  if◌then◌else◌,
}
use openfotos_platform.States.{EventState, IntakeState, InstallationStatus, one_of, is_open}
use openfotos_platform.Lifecycle.{state_for_reopened_intake}
use openfotos_platform.Models.{
  Code, Event, DesktopSession, EventInstallation, Db, AuditEntry, record_audit, save_event,
}
use openfotos_platform.Ingest.Rows.{event_for_session, is_active}
use openfotos_platform.Ingest.Reserve.{as_code}

unfoldable pub close_intake : DesktopSession → (event_id now : ℕ) → Db → Result Code (Event × Db)
close_intake s event_id now db = do
  event ← event_for_session s event_id db
  if not (is_open db.event.intake_state) then ok (db.event, db) else do
    raise_if (not (one_of db.event.state (EventState.draft ∷ EventState.uploading ∷ [])))
        Code.event_not_uploading
    saved ← save_event now (record db.event { intake_state = IntakeState.closed }) db
    ok (saved.event, record_audit (AuditEntry.intake_closed_entry db.event.intake_generation) saved)

-- The event of the next intake generation.
abbrev pub reopened : EventState → Event → Event
reopened next e = record e {
  intake_generation = e.intake_generation + 1;
  intake_state = IntakeState.open_;
  current_ingestion_manifest = none;
  derivatives_ready_generation = none;
  face_index_ready_generation = none;
  state = next;
}

unfoldable pub reopen_intake : DesktopSession → (event_id now : ℕ) → Db → Result Code (Event × Db)
reopen_intake s event_id now db = do
  event ← event_for_session s event_id db
  if is_open db.event.intake_state then ok (db.event, db) else do
    next ← as_code (state_for_reopened_intake db.event.state)
    saved ← save_event now (reopened next db.event) db
    ok (
      saved.event,
      record_audit
          (AuditEntry.intake_reopened db.event.intake_generation saved.event.intake_generation)
          saved,
    )

abbrev pub revoked_row : ℕ → EventInstallation → EventInstallation
revoked_row now i = record i { status = InstallationStatus.revoked; revoked_at = some now }

unfoldable pub revoke_installation :
    DesktopSession → (event_id installation_id now : ℕ) → Db → Result Code (EventInstallation × Db)
revoke_installation s event_id installation_id now db = do
  event ← event_for_session s event_id db
  installation ←
      or_raise Code.installation_not_found (find (λ i. i.id == installation_id) db.installations)
  if not (is_active installation.status)
      then ok (installation, db)
      else ok (
        revoked_row now installation,
        record_audit (AuditEntry.installation_revoked_entry installation.id) (record db {
          installations = update (λ i. i.id == installation.id) (revoked_row now) db.installations;
        }),
      )
