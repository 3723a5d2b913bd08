-- ===== src/Lifecycle/Examples.antt =====
-- The witnesses of the theorems on the lifecycle decisions.
use openfotos_platform.Prelude.{◌≡◌, refl, true, some, ok, arith, inl, inr, ◌↔◌, ◌⊎◌}
use openfotos_platform.States.{
  EventState, IntakeState, IngestionManifestState, can_transition_event,
}
use openfotos_platform.Lifecycle.{
  publication_checks, TransitionFacts, state_for_manual_transition, state_for_finalized_ingestion,
}
use openfotos_platform.Lifecycle.Publication.{
  publish-iff-IsPublishable, manual_transition-in_table, automatic_decisions-in_table,
  IsPublishable,
}

abbrev ready : TransitionFacts
ready = record {
  intake_state = IntakeState.closed;
  intake_generation = 2;
  manifest_exists = true;
  manifest_state = some IngestionManifestState.committed;
  manifest_generation = some 2;
  expiry_is_future = true;
  derivatives_ready_generation = some 2;
  face_index_ready_generation = some 2;
  preview_policy_confirmed = true;
  has_active_sub_event = true;
}

publish-iff-IsPublishable_example :
    (state_for_manual_transition EventState.review EventState.published ready
      ≡ ok EventState.published)
    ↔ (((EventState.review ≡ EventState.review) ⊎ (EventState.review ≡ EventState.archived))
        × IsPublishable ready)
publish-iff-IsPublishable_example =
    publish-iff-IsPublishable EventState.review ready (λ e. ground arith)

review_published :
    state_for_manual_transition EventState.review EventState.published ready
    ≡ ok EventState.published
unfolding state_for_manual_transition can_transition_event publication_checks
review_published = refl

manual_transition-in_table_example :
    (EventState.published ≡ EventState.published)
    × (can_transition_event EventState.review EventState.published ≡ true)
manual_transition-in_table_example =
    manual_transition-in_table EventState.review EventState.published EventState.published ready
      review_published

finalized_processing : state_for_finalized_ingestion EventState.uploading ≡ ok EventState.processing
unfolding state_for_finalized_ingestion
finalized_processing = refl

automatic_decisions-in_table_example :
    can_transition_event EventState.uploading EventState.processing ≡ true
automatic_decisions-in_table_example =
    automatic_decisions-in_table EventState.uploading EventState.processing true
      (inr (inr (inl finalized_processing)))
