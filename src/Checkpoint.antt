-- ===== src/Checkpoint.antt =====
-- The rows that a desktop keeps: apps/desktop/src/openfotos_desktop/ingestion/models.py and the schema of
-- apps/desktop/src/openfotos_desktop/ingestion/checkpoint.py, an SQLite database that outlives the
-- program. A path is its text. The columns `updated_at` and `cached_at`, which nothing reads, are left
-- out; the columns of a preview policy are one optional value. A foreign key, a unique column or a check
-- that would be violated is `integrity_error`.
pub mod Events
pub mod Batches
pub mod Inventory
pub mod Approval
pub mod Pending
pub mod Uploads
pub mod Previews
pub mod Faces
pub mod Examples
use openfotos_platform.Prelude.{
  ℕ, Bool, true, false, Option, none, some, List, Text, Result, ok, err, raise_if, ◌>>◌, any,
  update, if◌then◌else◌, not,
}
use openfotos_platform.States.{Variant}

pub data BatchState : Type 0 where
  draft scanning paused needs_review approved reserved uploading complete not_included : BatchState

pub data SelectionKind : Type 0 where
  file folder : SelectionKind

pub data InventoryStatus : Type 0 where
  accepted rejected blocking : InventoryStatus

pub data LocalUploadState : Type 0 where
  pending uploading verified failed excluded : LocalUploadState

pub data LocalFaceState : Type 0 where
  pending processing indexed no_usable_face failed conflict excluded : LocalFaceState

pub data RejectionReason : Type 0 where
  unsupported_extension content_type_mismatch invalid_jpeg invalid_image file_too_large :
      RejectionReason
  image_too_large symbolic_link unsupported_file_type source_missing source_unreadable :
      RejectionReason
  file_changed_during_scan : RejectionReason

pub data ScanIssueReason : Type 0 where
  selection_missing selection_type_changed directory_unreadable file_unreadable : ScanIssueReason
  new_file_after_freeze : ScanIssueReason

pub data WatermarkTemplate : Type 0 where
  compact_bottom_right bottom_center center_brand repeated_diagonal : WatermarkTemplate

pub data WatermarkLogoKind : Type 0 where
  no_logo onenodeai custom : WatermarkLogoKind

pub record PreviewPolicyCache : Type 0 where
  pub id : ℕ
  pub enabled : Bool
  pub template : WatermarkTemplate
  pub text : Text
  pub logo_kind : WatermarkLogoKind
  pub renderer_id : Text
  pub derivative_profile_id : Text
  pub mark_sha256 : Text

pub record SubEventCache : Type 0 where
  pub id : ℕ
  pub name : Text
  pub position : ℕ

pub record EventCache : Type 0 where
  pub id : ℕ
  pub name : Text
  pub storage_limit_bytes : ℕ
  pub processing_profile_id : Text
  pub face_model_id : Text
  pub face_index_ready : Bool
  pub server_url : Text
  pub reserved_original_bytes : ℕ
  pub verified_original_bytes : ℕ
  pub intake_state : Text
  pub intake_generation : ℕ
  pub device_label : Text
  pub sub_events : List SubEventCache
  pub preview_policy : Option PreviewPolicyCache

-- The table of events.
pub record EventRow : Type 0 where
  pub id : ℕ
  pub name : Text
  pub storage_limit_bytes : ℕ
  pub processing_profile_id : Text
  pub server_url : Text
  pub reserved_original_bytes : ℕ
  pub verified_original_bytes : ℕ
  pub intake_state : Text
  pub intake_generation : ℕ
  pub device_label : Text
  pub preview_policy : Option PreviewPolicyCache
  pub face_model_id : Text
  pub face_index_ready : Bool

pub record SubEventRow : Type 0 where
  pub id : ℕ
  pub event : ℕ
  pub name : Text
  pub position : ℕ
  pub is_active : Bool

pub record BatchRow : Type 0 where
  pub id : ℕ
  pub event : ℕ
  pub installation_id : ℕ
  pub sub_event : ℕ
  pub state : BatchState
  pub label : Text
  pub scan_generation : ℕ
  pub frozen_at : Option ℕ
  pub approved_at : Option ℕ
  pub created_at : ℕ

pub record SelectionRow : Type 0 where
  pub id : ℕ
  pub batch : ℕ
  pub kind : SelectionKind
  pub source_path : Text
  pub normalized_path : Text
  pub created_at : ℕ

pub record FileSnapshot : Type 0 where
  pub size_bytes : ℕ
  pub modified_ns : ℕ
  pub changed_ns : ℕ

pub record ValidationResult : Type 0 where
  pub status : InventoryStatus
  pub reason : Option RejectionReason
  pub content_type : Option Text
  pub sha256 : Option Text
  pub content_md5 : Option Text
  pub width : Option ℕ
  pub height : Option ℕ

-- The columns of a validation are one field.
pub record ItemRow : Type 0 where
  pub id : ℕ
  pub batch : ℕ
  pub selection : ℕ
  pub relative_path : Text
  pub source_path : Text
  pub normalized_path : Text
  pub basename : Text
  pub snapshot : FileSnapshot
  pub result : ValidationResult
  pub last_seen_generation : ℕ

pub record ScanIssueRow : Type 0 where
  pub id : ℕ
  pub batch : ℕ
  pub selection : Option ℕ
  pub generation : ℕ
  pub reason : ScanIssueReason
  pub source_path : Text
  pub blocking : Bool

pub record UploadRow : Type 0 where
  pub item : ℕ
  pub state : LocalUploadState
  pub attempt_count : ℕ
  pub last_error_code : Option Text
  pub completed_at : Option ℕ

pub record DerivativeRow : Type 0 where
  pub item : ℕ
  pub variant : Variant
  pub state : LocalUploadState
  pub attempt_count : ℕ
  pub last_error_code : Option Text
  pub completed_at : Option ℕ

pub record FaceRow : Type 0 where
  pub item : ℕ
  pub state : LocalFaceState
  pub attempt_count : ℕ
  pub last_error_code : Option Text
  pub detected_face_count : ℕ
  pub usable_face_count : ℕ
  pub completed_at : Option ℕ

-- The database, and the batches that have a directory of derivatives beside it.
pub record Store : Type 0 where
  pub installation_id : ℕ
  pub workstation_label : Option Text
  pub events : List EventRow
  pub sub_events : List SubEventRow
  pub batches : List BatchRow
  pub selections : List SelectionRow
  pub items : List ItemRow
  pub scan_issues : List ScanIssueRow
  pub uploads : List UploadRow
  pub derivatives : List DerivativeRow
  pub faces : List FaceRow
  pub derivative_caches : List ℕ

-- One constructor for each message of the source's KeyError and ValueError.
pub data StoreError : Type 0 where
  unknown_event unknown_batch unknown_selection unknown_item unknown_accepted_item : StoreError
  unknown_upload unknown_derivative unknown_face_analysis : StoreError
  event_text_required inactive_sub_event frozen_additions frozen_removals server_reserved :
      StoreError
  not_approved not_a_derivative face_not_terminal face_counts : StoreError
  not_scanned unresolved_issues nothing_accepted profile_mismatch over_allowance : StoreError
  integrity_error : StoreError

-- What the host computes: text and path functions of Python.
pub record Host : Type 0 where
  pub strip : Text → Text
  pub abspath : Text → Text
  pub normcase : Text → Text
  pub file_name : Text → Text

-- `normalize_path`
abbrev pub normalize_path : Host → Text → Text
normalize_path h path = h.normcase (h.abspath path)

-- `UPDATE ... WHERE`, and a KeyError where no row was changed.
abbrev pub update_or_raise {ℓ} :
    {A : Type ℓ} → StoreError → (A → Bool) → (A → A) → List A → Result StoreError (List A)
update_or_raise e p f rows = if any p rows then ok (update p f rows) else err e

-- `is not None`
abbrev pub is_present {ℓ} : {A : Type ℓ} → Option A → Bool
is_present none = false
is_present (some a) = true
