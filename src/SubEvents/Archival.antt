-- ===== src/SubEvents/Archival.antt =====
-- An archival, or a restoration, and the readiness after it.
use openfotos_platform.Prelude.{none}
use openfotos_platform.Models.{Event, Db}

-- The rows of a change.
abbrev reset_rows : Db → Event
reset_rows db = record db.event {
  derivatives_ready_generation = none;
  face_index_ready_generation = none;
}

-- A refresh of the gallery writes the event's state and readiness, and the audit.
abbrev refreshed_as : Db → Db → Db
refreshed_as db after = record db {
  event = record db.event {
    state = after.event.state;
    derivatives_ready_generation = after.event.derivatives_ready_generation;
    updated_at = after.event.updated_at;
  };
  audit = after.audit;
}
