-- ===== src/Transitions.antt =====
-- `transition_event` of apps/server/src/openfotos_server/events/services.py: the transitions that a
-- photographer asks for.
pub mod Checked
pub mod Examples
use openfotos_platform.Prelude.{
  ℕ, Bool, true, false, ◌&&◌, Option, none, some, ◌∷◌, [], Result, ok, ◌>>=◌, ltb, if◌then◌else◌,
}
use openfotos_platform.States.{EventState, IngestionManifestState, ◌=ˢ◌, one_of}
use openfotos_platform.Lifecycle.{TransitionFacts, state_for_manual_transition}
use openfotos_platform.Models.{
  Code, Event, IngestionManifest, Db, AuditEntry, record_audit, save_event, is_set,
}
use openfotos_platform.Ingest.Reserve.{as_code}
use openfotos_platform.Ingest.Status.{has_policy, has_active_sub_event}
use openfotos_platform.Ingest.Publish.{current_manifest}

-- `event.expires_at is not None and event.expires_at > now`
abbrev pub is_future : (now : ℕ) → Option ℕ → Bool
is_future now none = false
is_future now (some t) = ltb now t

abbrev pub state_of : Option IngestionManifest → Option IngestionManifestState
state_of none = none
state_of (some m) = some m.state

abbrev pub generation_of : Option IngestionManifest → Option ℕ
generation_of none = none
generation_of (some m) = some m.generation

-- The manifest is read for two targets only.
abbrev pub read_manifest : EventState → Db → Option IngestionManifest
read_manifest target db =
    if one_of target (EventState.processing ∷ EventState.published ∷ [])
    then current_manifest db
    else none

unfoldable pub transition_facts : (now : ℕ) → EventState → Db → TransitionFacts
transition_facts now target db = record {
  intake_state = db.event.intake_state;
  intake_generation = db.event.intake_generation;
  manifest_exists = is_set db.event.current_ingestion_manifest;
  manifest_state = state_of (read_manifest target db);
  manifest_generation = generation_of (read_manifest target db);
  expiry_is_future = is_future now db.event.expires_at;
  derivatives_ready_generation = db.event.derivatives_ready_generation;
  face_index_ready_generation = db.event.face_index_ready_generation;
  preview_policy_confirmed = target =ˢ EventState.published && has_policy db;
  has_active_sub_event = target =ˢ EventState.published && has_active_sub_event db;
}

-- A withdrawn gallery gets a fresh share version.
abbrev pub moved_event : EventState → EventState → (fresh_version : ℕ) → EventState → Event → Event
moved_event current target fresh_version next e = record e {
  state = next;
  share_access_version =
      if current =ˢ EventState.published && target =ˢ EventState.review
      then fresh_version
      else e.share_access_version;
}

abbrev pub save_transition :
    (now : ℕ) → EventState → (fresh_version : ℕ) → Db → EventState → Result Code (Event × Db)
save_transition now target fresh_version db next = do
  saved ← save_event now (moved_event db.event.state target fresh_version next db.event) db
  ok (saved.event, record_audit (AuditEntry.state_changed db.event.state next) saved)

unfoldable pub transition_event :
    (now : ℕ) → EventState → (fresh_version : ℕ) → Db → Result Code (Event × Db)
transition_event now target fresh_version db =
    if target =ˢ db.event.state then ok (db.event, db) else do
      next ←
          as_code
            (state_for_manual_transition db.event.state target (transition_facts now target db))
      if next =ˢ db.event.state
          then ok (db.event, db)
          else save_transition now target fresh_version db next
