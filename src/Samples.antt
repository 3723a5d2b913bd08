-- ===== src/Samples.antt =====
-- A small event and a concrete object store, for the runs and the witnesses of the other modules.
use openfotos_platform.Prelude.{
  ℕ, true, false, Option, none, some, List, [], ◌∷◌, Text, ◌=ᵗ◌, if◌then◌else◌,
}
use openfotos_platform.States.{
  EventState, IntakeState, InstallationStatus, ContributionState, UploadObjectState, Variant,
}
use openfotos_platform.Keys.{codes}
use openfotos_platform.Models.{
  Event, EventInstallation, DesktopSession, ContributionBatch, Asset, AssetObject, Db,
  ManifestDocument,
}
use openfotos_platform.Platform.{Platform, Head, PutOutcome, OriginalAsset}
use openfotos_platform.Ingest.Reserve.{Contribution, Call}

abbrev pub Stored : Type 0
Stored = List (Text × Head)

unfoldable pub stored_head : Text → Stored → Option Head
unfolding ◌=ᵗ◌
stored_head key [] = none
stored_head key ((k, h) ∷ b) = let rest = stored_head key b in if k =ᵗ key then some h else rest

unfoldable pub without : Text → Stored → Stored
unfolding ◌=ᵗ◌
without key [] = []
without key ((k, h) ∷ b) = let rest = without key b in if k =ᵗ key then rest else (k, h) ∷ rest

abbrev pub put_new : Text → Head → Option Head → Stored → PutOutcome × Stored
put_new key h none b = (PutOutcome.stored, (key, h) ∷ b)
put_new key h (some old) b = (PutOutcome.already_exists, b)

abbrev pub document_head : Text → Head
document_head sha256 = record {
  content_length = 7;
  content_type = [];
  etag = [];
  sha256 = some sha256;
}

unfoldable pub put_document : Text → ManifestDocument → Text → Stored → PutOutcome × Stored
unfolding stored_head
put_document key body sha256 b = put_new key (document_head sha256) (stored_head key b) b

-- Digests and text functions that are as plain as can be.
abbrev pub plain : Platform
plain = record {
  Bucket = Stored;
  head = λ key b. some (stored_head key b);
  delete = λ key b. (true, without key b);
  put_immutable = put_document;
  presign_put = λ key content_length md5 sha256 content_type ttl b.
      some (record { url = key; expires_at = ttl });
  contribution_sha256 = λ d. d.batch_id ∷ [];
  document_sha256 = λ d. d.generation ∷ [];
  document_length = λ d. 7;
  md5_hex = λ t. t;
  lower = λ t. t;
  strip = λ t. t;
  uuid_text = λ n. n ∷ [];
  six_digits = λ n. n ∷ [];
  upload_lease_page_size = 8;
  upload_lease_ttl_seconds = 300;
}

abbrev pub profile : Text
profile = codes "pilot-profile-v1"

abbrev pub draft_event : Event
draft_event = record {
  id = 1;
  photographer = 10;
  state = EventState.draft;
  storage_limit_bytes = 1000;
  reserved_original_bytes = 0;
  verified_original_bytes = 0;
  reserved_original_count = 0;
  verified_original_count = 0;
  max_contribution_devices = 2;
  intake_state = IntakeState.open_;
  intake_generation = 1;
  processing_profile_id = profile;
  derivatives_ready_generation = none;
  face_model_id = [];
  face_index_ready_generation = none;
  current_ingestion_manifest = none;
  expires_at = some 500;
  share_access_version = 0;
  updated_at = 0;
}

abbrev pub start : Db
start = record {
  event = draft_event;
  memberships = record { photographer = 10; user = 20; is_active = true } ∷ [];
  sub_events = record { id = 30; name = codes "Haldi"; position = 1; is_archived = false } ∷ [];
  installations = [];
  batches = [];
  assets = [];
  objects = [];
  faces = [];
  policy = none;
  manifests = [];
  taken_batches = [];
  taken_assets = [];
  audit = [];
}

abbrev pub session : DesktopSession
session = record { photographer = 10; user = 20; user_is_active = true; installation_id = 40 }

abbrev pub photo : (id size : ℕ) → OriginalAsset
photo id size = record {
  id = id;
  filename = codes "a.jpg";
  content_type = codes "image/jpeg";
  size_bytes = size;
  sha256 = id ∷ [];
  content_md5 = id ∷ [];
  width = 3;
  height = 2;
}

abbrev pub contribution : Contribution
contribution = record {
  batch_id = 50;
  sub_event_id = 30;
  label = [];
  processing_profile_id = profile;
  device_label = codes "Mac";
  assets = photo 60 400 ∷ photo 61 300 ∷ [];
}

abbrev pub call : Call
call = record { now = 5; installation_id = 70; policy_id = 71 }

-- The head of a stored photo that matches its manifest, and one that does not.
abbrev pub good_head : (id size : ℕ) → Head
good_head id size = record {
  content_length = size;
  content_type = codes "image/jpeg";
  etag = id ∷ [];
  sha256 = some (id ∷ []);
}

abbrev pub bad_head : Head
bad_head = record { content_length = 1; content_type = []; etag = []; sha256 = none }

abbrev pub upload : (asset size : ℕ) → Variant → UploadObjectState → AssetObject
upload asset size v state = record {
  asset = asset;
  batch = 50;
  variant = v;
  object_key = asset ∷ [];
  expected_bytes = size;
  sha256 = asset ∷ [];
  content_md5 = asset ∷ [];
  content_type = codes "image/jpeg";
  width = 3;
  height = 2;
  state = state;
  etag = [];
  lease_expires_at = none;
  verified_at = none;
  failure_code = none;
  excluded_reason = [];
  excluded_by = none;
}

abbrev pub asset_row : ℕ → Asset
asset_row id = record {
  id = id;
  batch = 50;
  original_filename = codes "a.jpg";
  width = 3;
  height = 2;
  sha256 = id ∷ [];
  captured_at = none;
  gallery_excluded_at = none;
  derivative_failure_code = [];
  derivative_failure_at = none;
  derivative_attempt_count = 0;
}

abbrev pub batch : ContributionState → ContributionBatch
batch state = record {
  id = 50;
  installation = 70;
  sub_event = 30;
  intake_generation = 1;
  state = state;
  label = [];
  processing_profile_id = profile;
  declared_asset_count = 2;
  declared_original_bytes = 700;
  manifest_sha256 = 50 ∷ [];
  completed_at = none;
  cancelled_at = none;
}

abbrev pub workstation : EventInstallation
workstation = record {
  id = 70;
  user = some 20;
  installation_id = 40;
  label = codes "Mac";
  status = InstallationStatus.active;
  revoked_at = none;
}

-- An event in Uploading with the uploads of one batch; its totals are given.
abbrev pub busy :
    ContributionState
    → List AssetObject
    → (reserved reserved_count verified verified_count : ℕ) → Db
busy state objects reserved reserved_count verified verified_count = record start {
  event = record draft_event {
    state = EventState.uploading;
    reserved_original_bytes = reserved;
    reserved_original_count = reserved_count;
    verified_original_bytes = verified;
    verified_original_count = verified_count;
  };
  installations = workstation ∷ [];
  batches = batch state ∷ [];
  assets = asset_row 60 ∷ asset_row 61 ∷ [];
  objects = objects;
}

abbrev pub pending : Db
pending =
    busy ContributionState.reserved
      (upload 60 400 Variant.original UploadObjectState.reserved
        ∷ upload 61 300 Variant.original UploadObjectState.failed
        ∷ [])
      700 2 0 0
