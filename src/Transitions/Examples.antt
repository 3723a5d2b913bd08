-- ===== src/Transitions/Examples.antt =====
-- An archived event that is published again, and the witnesses of the theorems on transitions.
use openfotos_platform.Transitions.Checked.{
  transition_event-publishes_ready, transition_event-Settles, IsReadyGallery,
}
use openfotos_platform.Prelude.{
  false, ◌≡◌, ◌⊎◌, refl, ok, err, some, ◌∷◌, [], total, arith, Result, find, any,
}
use openfotos_platform.States.{can_transition_event, EventState, IngestionManifestState}
use openfotos_platform.Models.{
  Event, Db, Code, IngestionManifest, save_event, satisfies_constraints,
}
use openfotos_platform.Samples.{start}
use openfotos_platform.Ingest.Counters.{CountersExact, Settles}
use openfotos_platform.Ingest.Publish.{current_manifest}
use openfotos_platform.Lifecycle.{state_for_manual_transition, publication_checks}
use openfotos_platform.Transitions.{transition_event, transition_facts}

abbrev snapshot : IngestionManifest
snapshot = record {
  generation = 1;
  state = IngestionManifestState.committed;
  object_key = [];
  content_sha256 = [];
  document = record {
    event_id = 1;
    generation = 1;
    created_at = 0;
    processing_profile_id = [];
    summary = record {
      verified_asset_count = 0;
      verified_original_bytes = 0;
      excluded_asset_count = 0;
    };
    contributions = [];
    assets = [];
  };
  asset_count = 0;
  original_bytes = 0;
  excluded_asset_count = 0;
  committed_at = some 3;
}

abbrev archived : Db
archived = record start {
  event = record start.event {
    state = EventState.archived;
    derivatives_ready_generation = some 1;
    face_index_ready_generation = some 1;
    current_ingestion_manifest = some 1;
  };
  policy =
      some (record { id = 71; enabled = false; derivative_profile_id = []; confirmed_by = 20 });
  manifests = snapshot ∷ [];
}

archived-exact : CountersExact archived
unfolding total
archived-exact = ground arith

transition_event-Settles_example : Settles (transition_event 9 EventState.published 5 archived)
transition_event-Settles_example =
    transition_event-Settles 9 EventState.published 5 archived archived-exact

abbrev answer_of : Result Code (Event × Db) → Event × Db
answer_of (ok answer) = answer
answer_of (err c) = (start.event, start)

abbrev again : Event × Db
again = answer_of (transition_event 9 EventState.published 5 archived)

published_again : transition_event 9 EventState.published 5 archived ≡ ok again
unfolding transition_event state_for_manual_transition can_transition_event publication_checks
    transition_facts current_manifest find any satisfies_constraints save_event
published_again = refl

transition_event-publishes_ready_example :
    ((archived.event.state ≡ EventState.review) ⊎ (archived.event.state ≡ EventState.archived))
    × (again.1.event.state ≡ EventState.published)
    × IsReadyGallery 9 again.1
transition_event-publishes_ready_example =
    transition_event-publishes_ready 9 5 archived again.1 again.0 (λ e. ground arith)
      published_again
