-- ===== src/Models.antt =====
-- apps/server/src/openfotos_server/events/models.py: the rows that one event owns. `Db` holds the rows
-- of one event; of other events it holds the ids of their batches and assets, which share the primary
-- keys. An `AssetObject` carries its asset's batch id, which never changes.
use openfotos_platform.Prelude.{
  ℕ, Bool, true, false, ◌&&◌, ◌||◌, not, ◌-◌, Option, none, some, List, ◌++◌, [], ◌∷◌, Text, Result,
  ok, err, leb, if◌then◌else◌,
}
use openfotos_platform.States.{
  EventState, IntakeState, InstallationStatus, ContributionState, UploadObjectState,
  IngestionManifestState, Variant, ◌=ˢ◌,
}
use openfotos_platform.Lifecycle.{Violation}

-- The codes of `IngestionError`, `DesktopAuthError` and `LifecycleViolation`, and the database's
-- `IntegrityError`.
pub data Code : Type 0 where
  event_not_found asset_not_found batch_not_found installation_not_found : Code
  sub_event_not_found sub_event_archived idempotency_conflict event_published intake_closed : Code
  violation : Violation → Code
  processing_profile_mismatch event_storage_limit event_asset_limit invalid_request : Code
  object_store_unavailable asset_excluded upload_missing : Code
  asset_size_mismatch asset_content_type_mismatch asset_checksum_mismatch : Code
  publication_snapshot_missing event_not_publishable empty_manifest derivatives_required : Code
  face_index_required preview_policy_required sub_event_required : Code
  publication_snapshot_exists manifest_object_conflict event_not_uploading : Code
  batch_has_verified_assets upload_lease_active invalid_exclusion_reason asset_immutable : Code
  intake_open contributions_not_terminal stale_intake_generation : Code
  installation_revoked event_device_limit invalid_device_label : Code
  preview_policy_not_confirmed preview_policy_mismatch derivative_profile_mismatch : Code
  source_checksum_mismatch original_not_verified event_not_processing : Code
  derivative_manifest_conflict derivative_dimensions_mismatch derivative_not_found : Code
  derivative_missing derivative_size_mismatch derivative_content_type_mismatch : Code
  derivative_checksum_mismatch invalid_capture_time : Code
  event_structure_locked sub_event_name_conflict sub_event_limit : Code
  invalid_sub_event_name invalid_sub_event_position : Code
  invalid_failure_code : Code
  integrity_error row_missing value_error : Code

pub record Event : Type 0 where
  pub id : ℕ
  pub photographer : ℕ
  pub state : EventState
  pub storage_limit_bytes : ℕ
  pub reserved_original_bytes : ℕ
  pub verified_original_bytes : ℕ
  pub reserved_original_count : ℕ
  pub verified_original_count : ℕ
  pub max_contribution_devices : ℕ
  pub intake_state : IntakeState
  pub intake_generation : ℕ
  pub processing_profile_id : Text
  pub derivatives_ready_generation : Option ℕ
  pub face_model_id : Text
  pub face_index_ready_generation : Option ℕ
  -- The manifest's generation, which is unique among the event's manifests.
  pub current_ingestion_manifest : Option ℕ
  pub expires_at : Option ℕ
  pub share_access_version : ℕ
  pub updated_at : ℕ

pub record Membership : Type 0 where
  pub photographer : ℕ
  pub user : ℕ
  pub is_active : Bool

pub record SubEvent : Type 0 where
  pub id : ℕ
  pub name : Text
  pub position : ℕ
  pub is_archived : Bool

pub record EventInstallation : Type 0 where
  pub id : ℕ
  pub user : Option ℕ
  pub installation_id : ℕ
  pub label : Text
  pub status : InstallationStatus
  pub revoked_at : Option ℕ

-- The part of a session row that the ingestion services read, with its user's account flag.
pub record DesktopSession : Type 0 where
  pub photographer : ℕ
  pub user : ℕ
  pub user_is_active : Bool
  pub installation_id : ℕ

pub record ContributionBatch : Type 0 where
  pub id : ℕ
  pub installation : ℕ
  pub sub_event : ℕ
  pub intake_generation : ℕ
  pub state : ContributionState
  pub label : Text
  pub processing_profile_id : Text
  pub declared_asset_count : ℕ
  pub declared_original_bytes : ℕ
  pub manifest_sha256 : Text
  pub completed_at : Option ℕ
  pub cancelled_at : Option ℕ

pub record Asset : Type 0 where
  pub id : ℕ
  pub batch : ℕ
  pub original_filename : Text
  pub width : ℕ
  pub height : ℕ
  pub sha256 : Text
  pub captured_at : Option ℕ
  pub gallery_excluded_at : Option ℕ
  pub derivative_failure_code : Text
  pub derivative_failure_at : Option ℕ
  pub derivative_attempt_count : ℕ

pub record AssetObject : Type 0 where
  pub asset : ℕ
  pub batch : ℕ
  pub variant : Variant
  pub object_key : Text
  pub expected_bytes : ℕ
  pub sha256 : Text
  pub content_md5 : Text
  pub content_type : Text
  pub width : ℕ
  pub height : ℕ
  pub state : UploadObjectState
  pub etag : Text
  pub lease_expires_at : Option ℕ
  pub verified_at : Option ℕ
  -- `none` is the empty code.
  pub failure_code : Option Code
  pub excluded_reason : Text
  pub excluded_by : Option ℕ

pub data FaceAnalysisState : Type 0 where
  pending failed conflict indexed no_usable_face : FaceAnalysisState

pub record FaceAnalysis : Type 0 where
  pub asset : ℕ
  pub state : FaceAnalysisState
  pub source_sha256 : Text
  pub model_id : Text

pub record PreviewPolicy : Type 0 where
  pub id : ℕ
  pub enabled : Bool
  pub derivative_profile_id : Text
  pub confirmed_by : ℕ

-- The document that `_aggregate_manifest_document` builds.
pub record ManifestContribution : Type 0 where
  pub batch_id : ℕ
  pub installation_id : ℕ
  pub sub_event_id : ℕ
  pub sub_event_name : Text
  pub generation : ℕ
  pub state : ContributionState
  pub asset_count : ℕ
  pub original_bytes : ℕ
  pub manifest_sha256 : Text

pub record ManifestAsset : Type 0 where
  pub asset_id : ℕ
  pub batch_id : ℕ
  pub filename : Text
  pub content_type : Text
  pub width : ℕ
  pub height : ℕ
  pub original_bytes : ℕ
  pub sha256 : Text
  pub content_md5 : Text
  pub object_key : Text
  pub state : UploadObjectState
  pub excluded_reason : Text

pub record ManifestSummary : Type 0 where
  pub verified_asset_count : ℕ
  pub verified_original_bytes : ℕ
  pub excluded_asset_count : ℕ

pub record ManifestDocument : Type 0 where
  pub event_id : ℕ
  pub generation : ℕ
  pub created_at : ℕ
  pub processing_profile_id : Text
  pub summary : ManifestSummary
  pub contributions : List ManifestContribution
  pub assets : List ManifestAsset

pub record IngestionManifest : Type 0 where
  pub generation : ℕ
  pub state : IngestionManifestState
  pub object_key : Text
  pub content_sha256 : Text
  pub document : ManifestDocument
  pub asset_count : ℕ
  pub original_bytes : ℕ
  pub excluded_asset_count : ℕ
  pub committed_at : Option ℕ

-- An `AuditEvent` row of a succeeded action: the action with its metadata.
pub data AuditEntry : Type 0 where
  policy_confirmed : (policy : ℕ) (enabled automatic : Bool) → AuditEntry
  installation_registered installation_revoked_entry : (installation : ℕ) → AuditEntry
  contribution_reserved : (batch asset_count original_bytes generation sub_event : ℕ) → AuditEntry
  asset_upload_verified : (asset : ℕ) → AuditEntry
  publication_snapshot : (generation asset_count excluded_batch_count : ℕ) → AuditEntry
  intake_closed_entry : (generation : ℕ) → AuditEntry
  intake_reopened : (from_generation to_generation : ℕ) → AuditEntry
  contribution_cancelled : (batch released_bytes released_count : ℕ) → AuditEntry
  asset_excluded_entry : (asset : ℕ) → AuditEntry
  ingestion_finalized : (generation : ℕ) → AuditEntry
  state_changed : (from_state to_state : EventState) → AuditEntry
  automatic_state_change : (from_state to_state : EventState) → AuditEntry
  derivative_upload_verified : (asset : ℕ) → Variant → AuditEntry
  derivative_failed : (asset : ℕ) (code : Text) → AuditEntry
  sub_event_created : (sub_event : ℕ) → AuditEntry
  sub_event_changed : (sub_event : ℕ) → AuditEntry
  sub_event_archival : (sub_event : ℕ) (archived : Bool) → AuditEntry
  contribution_reassigned : (batch from_sub_event to_sub_event : ℕ) → AuditEntry

pub record Db : Type 0 where
  pub event : Event
  pub memberships : List Membership
  pub sub_events : List SubEvent
  pub installations : List EventInstallation
  pub batches : List ContributionBatch
  pub assets : List Asset
  pub objects : List AssetObject
  pub faces : List FaceAnalysis
  pub policy : Option PreviewPolicy
  pub manifests : List IngestionManifest
  pub taken_batches : List ℕ
  pub taken_assets : List ℕ
  pub audit : List AuditEntry

abbrev pub record_audit : AuditEntry → Db → Db
record_audit entry db = record db { audit = db.audit ++ entry ∷ [] }

abbrev pub event_original_asset_limit : ℕ
event_original_asset_limit = 10000

-- `expires_at IS NOT NULL`
abbrev pub is_set : Option ℕ → Bool
is_set none = false
is_set (some n) = true

-- The check constraints of the table of events that an update of the totals or of the state can
-- break. The amounts are naturals, so a total that would turn negative is found where it is computed.
unfoldable pub satisfies_constraints : Event → Bool
satisfies_constraints e =
    (not (e.state =ˢ EventState.published) || is_set e.expires_at)
    && leb e.verified_original_bytes e.reserved_original_bytes
    && leb e.reserved_original_bytes e.storage_limit_bytes
    && leb e.verified_original_count e.reserved_original_count
    && leb e.reserved_original_count event_original_asset_limit

-- `event.save(...)` inside a transaction.
unfoldable pub save_event : ℕ → Event → Db → Result Code Db
save_event now e db =
    if satisfies_constraints e
    then ok (record db { event = record e { updated_at = now } })
    else err integrity_error

-- `a -= b` on a column that holds no negative number.
unfoldable pub decrease : ℕ → ℕ → Result Code ℕ
decrease a b = if leb b a then ok (a - b) else err integrity_error
