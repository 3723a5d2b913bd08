-- ===== src/Ingest/Reserve.antt =====
-- `reserve_contribution` of ingestion_services.py, with the value `ContributionInput` of
-- packages/contracts/src/openfotos_contracts/ingestion.py that it receives.
use openfotos_platform.Prelude.{
  ℕ, ◌+◌, Bool, true, false, not, ◌&&◌, ◌||◌, Option, none, some, List, [], ◌∷◌, ◌++◌, map, Text,
  Result, ok, err, or_raise, raise_if, ◌>>=◌, ◌>>◌, ◌==◌, ltb, leb, ◌=ᵗ◌, any, find, length, total,
  if◌then◌else◌,
}
use openfotos_platform.States.{
  EventState, ContributionState, UploadObjectState, Variant, ◌=ˢ◌, is_open,
}
use openfotos_platform.Lifecycle.{state_for_contribution, Violation}
use openfotos_platform.Models.{
  Code, Event, DesktopSession, EventInstallation, ContributionBatch, SubEvent, Asset, AssetObject,
  Db, AuditEntry, record_audit, event_original_asset_limit, save_event,
}
use openfotos_platform.Platform.{Platform, OriginalAsset, ContributionDocument}
use openfotos_platform.Keys.{asset_key, codes}
use openfotos_platform.Devices.{register_event_installation}
use openfotos_platform.Ingest.Rows.{event_for_session}

pub record Contribution : Type 0 where
  pub batch_id : ℕ
  pub sub_event_id : ℕ
  pub label : Text
  pub processing_profile_id : Text
  pub device_label : Text
  pub assets : List OriginalAsset

-- The random ids and the time of one call.
pub record Call : Type 0 where
  pub now : ℕ
  pub installation_id : ℕ
  pub policy_id : ℕ

abbrev pub original_bytes : Contribution → ℕ
original_bytes c = total (λ a. a.size_bytes) c.assets

-- `sorted(assets, key=lambda item: str(item.id))`: the texts of UUIDs are ordered as their numbers.
unfoldable pub insert_by_id : OriginalAsset → List OriginalAsset → List OriginalAsset
insert_by_id a [] = a ∷ []
insert_by_id a (b ∷ bs) =
    let rest = b ∷ insert_by_id a bs in if leb a.id b.id then a ∷ b ∷ bs else rest

unfoldable pub sorted_by_id : List OriginalAsset → List OriginalAsset
unfolding insert_by_id
sorted_by_id [] = []
sorted_by_id (a ∷ as') = insert_by_id a (sorted_by_id as')

unfoldable pub canonical_document : Contribution → ContributionDocument
unfolding sorted_by_id
canonical_document c = record {
  batch_id = c.batch_id;
  sub_event_id = c.sub_event_id;
  label = c.label;
  processing_profile_id = c.processing_profile_id;
  assets = sorted_by_id c.assets;
}

abbrev pub as_code {ℓ} : {A : Type ℓ} → Result Violation A → Result Code A
as_code (ok a) = ok a
as_code (err v) = err (Code.violation v)

-- `Asset.objects.filter(pk__in=...).exists()`
unfoldable pub asset_id_taken : Db → OriginalAsset → Bool
asset_id_taken db a = any (λ r. r.id == a.id) db.assets || any (λ i. i == a.id) db.taken_assets

-- `SubEvent.objects.get(pk=..., is_archived=False)`
abbrev pub is_active_sub_event : ℕ → SubEvent → Bool
is_active_sub_event sub r = r.id == sub && not r.is_archived

-- The checks of a new contribution, in their order; the result is the event's next state.
unfoldable pub reservation_checks : Contribution → Db → Result Code EventState
unfolding state_for_contribution asset_id_taken
reservation_checks c db = do
  raise_if (db.event.state =ˢ EventState.published) Code.event_published
  raise_if (not (is_open db.event.intake_state)) Code.intake_closed
  next ← as_code (state_for_contribution db.event.state)
  raise_if (not (c.processing_profile_id =ᵗ db.event.processing_profile_id))
      Code.processing_profile_mismatch
  raise_if (ltb db.event.storage_limit_bytes (db.event.reserved_original_bytes + original_bytes c))
      Code.event_storage_limit
  raise_if (ltb event_original_asset_limit (db.event.reserved_original_count + length c.assets))
      Code.event_asset_limit
  raise_if (any (asset_id_taken db) c.assets) Code.idempotency_conflict
  ok next

-- The preview policy that the first contribution locks.
abbrev pub ensure_policy : DesktopSession → Call → Db → Db
ensure_policy s call db = elim db.policy [
  | some existing ↦ db
  | none ↦ record_audit (AuditEntry.policy_confirmed call.policy_id false true) (record db {
    policy = some (record {
      id = call.policy_id;
      enabled = false;
      derivative_profile_id = codes "gallery-jpeg-v1";
      confirmed_by = s.user;
    });
  })
]

abbrev pub new_asset : ℕ → OriginalAsset → Asset
new_asset batch a = record {
  id = a.id;
  batch = batch;
  original_filename = a.filename;
  width = a.width;
  height = a.height;
  sha256 = a.sha256;
  captured_at = none;
  gallery_excluded_at = none;
  derivative_failure_code = [];
  derivative_failure_at = none;
  derivative_attempt_count = 0;
}

module _ (p : Platform) where
  open p use {contribution_sha256, uuid_text}

  abbrev pub new_original : (batch : ℕ) → Text → OriginalAsset → AssetObject
  new_original batch key a = record {
    asset = a.id;
    batch = batch;
    variant = Variant.original;
    object_key = key;
    expected_bytes = a.size_bytes;
    sha256 = a.sha256;
    content_md5 = a.content_md5;
    content_type = a.content_type;
    width = a.width;
    height = a.height;
    state = UploadObjectState.reserved;
    etag = [];
    lease_expires_at = none;
    verified_at = none;
    failure_code = none;
    excluded_reason = [];
    excluded_by = none;
  }

  -- The rows of `AssetObject.objects.bulk_create`.
  unfoldable pub new_originals :
      (event batch : ℕ) → List OriginalAsset → Result Code (List AssetObject)
  new_originals event batch [] = ok []
  new_originals event batch (a ∷ as') = do
    key ← or_raise Code.value_error (asset_key uuid_text event a.id Variant.original a.content_type)
    rest ← new_originals event batch as'
    ok (new_original batch key a ∷ rest)

  abbrev pub new_batch :
      Contribution → EventInstallation → (sub_event : ℕ) → Text → Event → ContributionBatch
  new_batch c installation sub_event sha256 event = record {
    id = c.batch_id;
    installation = installation.id;
    sub_event = sub_event;
    intake_generation = event.intake_generation;
    state = ContributionState.reserved;
    label = c.label;
    processing_profile_id = c.processing_profile_id;
    declared_asset_count = length c.assets;
    declared_original_bytes = original_bytes c;
    manifest_sha256 = sha256;
    completed_at = none;
    cancelled_at = none;
  }

  -- The rows, the totals and the audit entry of a new contribution.
  unfoldable pub insert_rows :
      Call
      → Contribution
      → EventInstallation
      → (sub_event : ℕ) → Text
      → EventState
      → Db
      → Result Code (ContributionBatch × Db)
  insert_rows call c installation sub_event sha256 next db = do
    let batch = new_batch c installation sub_event sha256 db.event
    originals ← new_originals db.event.id c.batch_id c.assets
    saved ←
        save_event call.now
          (record db.event {
            reserved_original_bytes = db.event.reserved_original_bytes + original_bytes c;
            reserved_original_count = db.event.reserved_original_count + length c.assets;
            state = next;
          })
          (record db {
            batches = db.batches ++ batch ∷ [];
            assets = db.assets ++ map (new_asset c.batch_id) c.assets;
            objects = db.objects ++ originals;
          })
    ok (
      batch,
      record_audit
          (AuditEntry.contribution_reserved c.batch_id batch.declared_asset_count
            batch.declared_original_bytes batch.intake_generation sub_event)
          saved,
    )

  -- What follows the checks.
  unfoldable pub insert_contribution :
      DesktopSession
      → Call
      → Contribution
      → EventInstallation
      → (sub_event : ℕ) → Text
      → EventState
      → Db
      → Result Code (ContributionBatch × Db)
  insert_contribution s call c installation sub_event sha256 next db =
      insert_rows call c installation sub_event sha256 next (ensure_policy s call db)

  -- A batch id that is in use: the same contribution again, or a conflict.
  abbrev pub repeated_contribution :
      ContributionBatch
      → EventInstallation
      → (sub_event : ℕ) → Text
      → Db
      → Result Code (ContributionBatch × Db)
  repeated_contribution existing installation sub_event sha256 db =
      if existing.installation == installation.id
        && (existing.sub_event == sub_event && existing.manifest_sha256 =ᵗ sha256)
      then ok (existing, db)
      else err Code.idempotency_conflict

  -- The contribution's batch id, looked up among the event's batches.
  unfoldable pub place_contribution :
      DesktopSession
      → Call
      → Contribution
      → EventInstallation
      → (sub_event : ℕ) → Text
      → Option ContributionBatch
      → Db
      → Result Code (ContributionBatch × Db)
  place_contribution s call c installation sub_event sha256 (some existing) db =
      repeated_contribution existing installation sub_event sha256 db
  place_contribution s call c installation sub_event sha256 none db = do
    raise_if (any (λ i. i == c.batch_id) db.taken_batches) Code.idempotency_conflict
    next ← reservation_checks c db
    insert_contribution s call c installation sub_event sha256 next db

  unfoldable pub reserve_contribution :
      DesktopSession
      → (event_id : ℕ) → Contribution
      → Call
      → Db
      → Result Code (ContributionBatch × Db)
  reserve_contribution s event_id c call db0 = do
    event ← event_for_session s event_id db0
    (installation, db) ← register_event_installation p s c.device_label call.installation_id db0
    sub_event ←
        or_raise Code.sub_event_not_found (find (is_active_sub_event c.sub_event_id) db.sub_events)
    place_contribution s call c installation sub_event.id
        (contribution_sha256 (canonical_document c)) (find (λ b. b.id == c.batch_id) db.batches) db
