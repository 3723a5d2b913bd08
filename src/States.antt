-- ===== src/States.antt =====
-- packages/contracts/src/openfotos_contracts/states.py: the lifecycle values that the server and the
-- desktop share, and the table of event transitions.
use openfotos_platform.Prelude.{◌≡◌, Bool, true, false, ◌||◌, List, [], ◌∷◌, arith}

pub data EventState : Type 0 where
  draft uploading processing review published archived failed cancelled : EventState

pub data IntakeState : Type 0 where
  open_ closed : IntakeState

pub data InstallationStatus : Type 0 where
  active revoked : InstallationStatus

pub data ContributionState : Type 0 where
  reserved complete not_included cancelled : ContributionState

pub data UploadObjectState : Type 0 where
  reserved verified failed excluded : UploadObjectState

pub data IngestionManifestState : Type 0 where
  prepared committed : IngestionManifestState

-- `AssetVariant` of packages/contracts/src/openfotos_contracts/derivatives.py.
pub data Variant : Type 0 where
  original preview thumbnail : Variant

-- `is` on the members of the enumeration.
infix 50 ◌=ˢ◌
abbrev pub ◌=ˢ◌ : EventState → EventState → Bool
EventState.draft =ˢ EventState.draft = true
EventState.uploading =ˢ EventState.uploading = true
EventState.processing =ˢ EventState.processing = true
EventState.review =ˢ EventState.review = true
EventState.published =ˢ EventState.published = true
EventState.archived =ˢ EventState.archived = true
EventState.failed =ˢ EventState.failed = true
EventState.cancelled =ˢ EventState.cancelled = true
_ =ˢ _ = false

abbrev pub is_open : IntakeState → Bool
is_open IntakeState.open_ = true
is_open IntakeState.closed = false

abbrev pub is_committed : IngestionManifestState → Bool
is_committed IngestionManifestState.prepared = false
is_committed IngestionManifestState.committed = true

-- `state in {...}`
abbrev pub one_of : EventState → List EventState → Bool
one_of s [] = false
one_of s (t ∷ ts) = s =ˢ t || one_of s ts

-- `_EVENT_TRANSITIONS`
unfoldable pub event_transitions : EventState → List EventState
event_transitions EventState.draft = EventState.uploading ∷ EventState.cancelled ∷ []
event_transitions EventState.uploading = EventState.processing ∷ EventState.failed ∷ []
event_transitions EventState.processing =
    EventState.uploading ∷ EventState.review ∷ EventState.failed ∷ []
event_transitions EventState.review =
    EventState.uploading ∷ EventState.published ∷ EventState.processing ∷ []
event_transitions EventState.published = EventState.archived ∷ EventState.review ∷ []
event_transitions EventState.archived = EventState.published ∷ []
event_transitions EventState.failed =
    EventState.uploading ∷ EventState.processing ∷ EventState.cancelled ∷ []
event_transitions EventState.cancelled = []

unfoldable pub can_transition_event : EventState → EventState → Bool
unfolding event_transitions
can_transition_event current target = target =ˢ current || one_of target (event_transitions current)

pub =ˢ_sound : (s t : EventState) → (s =ˢ t) ≡ true → s ≡ t
=ˢ_sound s t h = ground arith
