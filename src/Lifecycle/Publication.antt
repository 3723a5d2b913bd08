-- ===== src/Lifecycle/Publication.antt =====
-- What the decisions of event_lifecycle.py establish: publication only of a complete gallery, and
-- every decision a step of the shared transition table.
use openfotos_platform.Prelude.{◌≡◌, true, Bool, some, ok, arith, ◌↔◌, ◌≢◌, ◌⊎◌}
use openfotos_platform.States.{EventState, IngestionManifestState, =ˢ_sound, can_transition_event}
use openfotos_platform.Lifecycle.{
  TransitionFacts, state_for_contribution, state_for_reopened_intake, state_for_finalized_ingestion,
  state_for_derivative_readiness, publication_checks, state_for_manual_transition,
}

-- Everything that publication asks for.
pub record IsPublishable (f : TransitionFacts) : Type 0 where
  pub sub_event : f.has_active_sub_event ≡ true
  pub expiry : f.expiry_is_future ≡ true
  pub manifest : f.manifest_exists ≡ true
  pub committed : f.manifest_state ≡ some IngestionManifestState.committed
  pub generation : f.manifest_generation ≡ some f.intake_generation
  pub derivatives : f.derivatives_ready_generation ≡ some f.intake_generation
  pub faces : f.face_index_ready_generation ≡ some f.intake_generation
  pub policy : f.preview_policy_confirmed ≡ true

publication_checks-IsPublishable :
    (f : TransitionFacts) → publication_checks f ≡ ok tt → IsPublishable f
unfolding publication_checks
publication_checks-IsPublishable f h = ground arith

IsPublishable-publication_checks :
    (f : TransitionFacts) → IsPublishable f → publication_checks f ≡ ok tt
unfolding publication_checks
IsPublishable-publication_checks f h = ground arith

publish_checked :
    (current : EventState) (f : TransitionFacts)
    → current ≢ EventState.published
    → state_for_manual_transition current EventState.published f ≡ ok EventState.published
    → ((current ≡ EventState.review) ⊎ (current ≡ EventState.archived))
      × (publication_checks f ≡ ok tt)
unfolding state_for_manual_transition can_transition_event
publish_checked current f h e = ground arith

publish_allowed :
    (current : EventState) (f : TransitionFacts)
    → ((current ≡ EventState.review) ⊎ (current ≡ EventState.archived))
    → publication_checks f ≡ ok tt
    → state_for_manual_transition current EventState.published f ≡ ok EventState.published
unfolding state_for_manual_transition can_transition_event
publish_allowed current f h e = ground arith

-- A manual transition into Published, from another state, is accepted exactly when the event is in
-- Review or Archived and everything that publication asks for holds.
pub publish-iff-IsPublishable :
    (current : EventState) (f : TransitionFacts)
    → current ≢ EventState.published
    → (state_for_manual_transition current EventState.published f ≡ ok EventState.published)
      ↔ (((current ≡ EventState.review) ⊎ (current ≡ EventState.archived)) × IsPublishable f)
publish-iff-IsPublishable current f h = (
  (λ e.
      let (source, checks) = publish_checked current f h e in
      (source, publication_checks-IsPublishable f checks)),
  (λ (source, p). publish_allowed current f source (IsPublishable-publication_checks f p)),
)

-- An accepted manual transition ends in the state that was asked for, and the shared transition
-- table permits it.
pub manual_transition-in_table :
    (current target s : EventState) (f : TransitionFacts)
    → state_for_manual_transition current target f ≡ ok s
    → (s ≡ target) × (can_transition_event current target ≡ true)
unfolding state_for_manual_transition can_transition_event
manual_transition-in_table current target s f h = ground (arith, =ˢ_sound target current)

-- The four automatic decisions (a contribution, a reopened intake, a finalized ingestion, derivative
-- readiness) only make steps that the shared transition table permits.
pub automatic_decisions-in_table :
    (current s : EventState) (ready : Bool)
    → ((state_for_contribution current ≡ ok s)
        ⊎ (state_for_reopened_intake current ≡ ok s)
        ⊎ (state_for_finalized_ingestion current ≡ ok s)
        ⊎ (state_for_derivative_readiness current ready ≡ s))
    → can_transition_event current s ≡ true
unfolding state_for_contribution state_for_reopened_intake state_for_finalized_ingestion
    state_for_derivative_readiness can_transition_event
automatic_decisions-in_table current s ready h = ground arith
