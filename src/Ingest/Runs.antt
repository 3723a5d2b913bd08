-- ===== src/Ingest/Runs.antt =====
-- Runs of reservations, closings and revocations, and the witnesses of their theorems.
use openfotos_platform.Ingest.Intake.Cycle.{close_then_reopen}
use openfotos_platform.Ingest.Intake.Revoked.{revoke-bars}
use openfotos_platform.Ingest.Counters.{CountersExact}
use openfotos_platform.Prelude.{
  none, some, update, ◌==◌, ◌≡◌, ◌≤◌, ◌+◌, refl, ok, err, ◌∷◌, [], find, any, keep, total, ◌=ᵗ◌,
  Result, arith, true, false,
}
use openfotos_platform.States.{EventState, IntakeState, is_open, ContributionState}
use openfotos_platform.Models.{
  AuditEntry, ContributionBatch, Db, Code, save_event, satisfies_constraints,
}
use openfotos_platform.Keys.{asset_key}
use openfotos_platform.Samples.{
  workstation, plain, start, session, contribution, call, pending, batch,
}
use openfotos_platform.Devices.{active_membership, active_count, register_event_installation}
use openfotos_platform.Ingest.Rows.{event_for_session}
use openfotos_platform.Ingest.Reserve.{
  reserve_contribution, place_contribution, reservation_checks, insert_contribution, insert_rows,
  new_originals,
}
use openfotos_platform.Ingest.Repeat.Accepted.{reserve_contribution-repeats}
use openfotos_platform.Ingest.Intake.{revoked_row, close_intake, reopen_intake, revoke_installation}

-- The database and the batch of the first reservation.
abbrev answer_of : Result Code (ContributionBatch × Db) → ContributionBatch × Db
answer_of (ok answer) = answer
answer_of (err c) = (batch ContributionState.cancelled, start)

abbrev reserved : ContributionBatch × Db
reserved = answer_of (reserve_contribution plain session 1 contribution call start)

first_reservation : reserve_contribution plain session 1 contribution call start ≡ ok reserved
unfolding reserve_contribution register_event_installation place_contribution reservation_checks
    insert_contribution insert_rows new_originals asset_key event_for_session any find keep ◌=ᵗ◌
    total save_event satisfies_constraints
first_reservation = refl

reserve_contribution-repeats_example :
    reserve_contribution plain session 1 contribution (record call { now = 99 }) reserved.1
    ≡ ok reserved
reserve_contribution-repeats_example =
    reserve_contribution-repeats plain session 1 contribution call (record call { now = 99 }) start
      reserved.1 reserved.0 first_reservation

pending-exact : CountersExact pending
unfolding total
pending-exact = ground arith

abbrev shut : Db
shut = record pending {
  event = record pending.event { intake_state = IntakeState.closed; updated_at = 9 };
  audit = AuditEntry.intake_closed_entry 1 ∷ [];
}

pending-shut : close_intake session 1 9 pending ≡ ok (shut.event, shut)
unfolding close_intake event_for_session any save_event satisfies_constraints
pending-shut = refl

close_then_reopen_example :
    (is_open shut.event.intake_state ≡ false)
    × (db' : Db) × (reopen_intake session 1 12 shut ≡ ok (db'.event, db'))
    × (db'.event.intake_state ≡ IntakeState.open_)
    × (db'.event.state ≡ EventState.uploading)
    × (db'.event.intake_generation ≡ pending.event.intake_generation + 1)
    × (db'.event.current_ingestion_manifest ≡ none)
    × (db'.event.derivatives_ready_generation ≡ none)
    × (db'.event.face_index_ready_generation ≡ none)
    × CountersExact db'
close_then_reopen_example =
    close_then_reopen session 1 9 12 pending shut shut.event refl pending-exact pending-shut

abbrev barred : Db
barred = record pending {
  installations = revoked_row 9 workstation ∷ [];
  audit = AuditEntry.installation_revoked_entry 70 ∷ [];
}

pending-barred : revoke_installation session 1 70 9 pending ≡ ok (revoked_row 9 workstation, barred)
unfolding revoke_installation event_for_session any find update
pending-barred = refl

pending_row : find (λ i. i.id == 70) pending.installations ≡ some workstation
unfolding find
pending_row = refl

pending_member : active_membership session pending ≡ true
unfolding active_membership any
pending_member = refl

own_row :
    find (λ i. i.installation_id == session.installation_id) pending.installations
    ≡ some workstation
unfolding find
own_row = refl

revoke-bars_example :
    (register_event_installation plain session [] 72 barred ≡ err Code.installation_revoked)
    × (active_count barred.installations + 1 ≤ active_count pending.installations)
revoke-bars_example =
    revoke-bars plain session session [] 1 70 9 72 pending barred (revoked_row 9 workstation)
      workstation pending_row own_row pending_member refl pending-barred
