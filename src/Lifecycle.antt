-- ===== src/Lifecycle.antt =====
-- apps/server/src/openfotos_server/events/event_lifecycle.py: the pure lifecycle decisions that the
-- server's commands share. `Code` holds the error codes of the server's exceptions, which the
-- commands pass on from one exception class to another unchanged.
pub mod Publication
pub mod Examples
use openfotos_platform.Prelude.{
  ℕ, ◌≡◌, Bool, true, false, not, ◌&&◌, ◌||◌, Option, none, some, List, [], ◌∷◌, Result, ok, err,
  raise_if, ◌>>=◌, ◌>>◌, ◌==◌, if◌then◌else◌,
}
use openfotos_platform.States.{
  EventState, IntakeState, IngestionManifestState, ◌=ˢ◌, is_open, is_committed, one_of,
  can_transition_event,
}

pub data Violation : Type 0 where
  event_not_uploading event_not_reopenable invalid_transition reopen_required : Violation
  finalization_required sub_event_required future_expiry_required derivatives_required : Violation
  face_index_required preview_policy_required : Violation

pub record TransitionFacts : Type 0 where
  pub intake_state : IntakeState
  pub intake_generation : ℕ
  pub manifest_exists : Bool
  pub manifest_state : Option IngestionManifestState
  pub manifest_generation : Option ℕ
  pub expiry_is_future : Bool
  pub derivatives_ready_generation : Option ℕ
  pub face_index_ready_generation : Option ℕ
  pub preview_policy_confirmed : Bool
  pub has_active_sub_event : Bool

-- `x == n` for an `x : int | None`
abbrev pub is_generation : Option ℕ → ℕ → Bool
is_generation none n = false
is_generation (some m) n = m == n

abbrev pub is_committed_state : Option IngestionManifestState → Bool
is_committed_state none = false
is_committed_state (some s) = is_committed s

unfoldable pub current_manifest_is_committed : TransitionFacts → Bool
current_manifest_is_committed f =
    f.manifest_exists
    && is_committed_state f.manifest_state
    && is_generation f.manifest_generation f.intake_generation

unfoldable pub state_for_contribution : EventState → Result Violation EventState
state_for_contribution current =
    if one_of current (EventState.draft ∷ EventState.uploading ∷ [])
    then ok EventState.uploading
    else err event_not_uploading

unfoldable pub state_for_reopened_intake : EventState → Result Violation EventState
state_for_reopened_intake current =
    if one_of current (EventState.published ∷ EventState.archived ∷ EventState.cancelled ∷ [])
    then err event_not_reopenable
    else ok EventState.uploading

unfoldable pub state_for_finalized_ingestion : EventState → Result Violation EventState
state_for_finalized_ingestion current =
    if current =ˢ EventState.uploading then ok EventState.processing else err event_not_uploading

unfoldable pub state_for_derivative_readiness : EventState → Bool → EventState
state_for_derivative_readiness current ready =
    if ready && current =ˢ EventState.processing
    then EventState.review
    else if not ready && current =ˢ EventState.review
    then EventState.processing
    else current

-- The checks for `target is EventState.PUBLISHED`, in their order.
unfoldable pub publication_checks : TransitionFacts → Result Violation (Unit {0})
unfolding current_manifest_is_committed
publication_checks f = do
  raise_if (not f.has_active_sub_event) sub_event_required
  raise_if (not f.expiry_is_future) future_expiry_required
  raise_if (not (current_manifest_is_committed f)) finalization_required
  raise_if (not (is_generation f.derivatives_ready_generation f.intake_generation))
      derivatives_required
  raise_if (not (is_generation f.face_index_ready_generation f.intake_generation))
      face_index_required
  raise_if (not f.preview_policy_confirmed) preview_policy_required
  ok tt

unfoldable pub state_for_manual_transition :
    EventState → EventState → TransitionFacts → Result Violation EventState
state_for_manual_transition current target f = if target =ˢ current then ok current else do
  raise_if (not (can_transition_event current target)) invalid_transition
  raise_if
      (target =ˢ EventState.uploading
        && (one_of current (EventState.processing ∷ EventState.review ∷ []) || f.manifest_exists))
      reopen_required
  raise_if
      (target =ˢ EventState.processing
        && (is_open f.intake_state || not (current_manifest_is_committed f)))
      finalization_required
  if target =ˢ EventState.published then publication_checks f else ok tt
  ok target
