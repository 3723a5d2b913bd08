-- ===== src/Ingest/Rows.antt =====
-- The queries, tests and row updates that the ingestion services share: tests on states, the lookups
-- that resolve a session's event, batch and upload, and the removal of unverified objects
-- (apps/server/src/openfotos_server/events/ingestion_services.py).
use openfotos_platform.Prelude.{
  ℕ, Bool, true, false, not, ◌&&◌, ◌||◌, Option, none, some, [], ◌∷◌, Text, Result, ok, err,
  or_raise, raise_if, ◌>>=◌, ◌>>◌, ◌==◌, ltb, ◌=ᵗ◌, any, find, replace, update, if◌then◌else◌,
}
use openfotos_platform.States.{InstallationStatus, ContributionState, UploadObjectState, Variant}
use openfotos_platform.Models.{
  Code, Event, DesktopSession, EventInstallation, ContributionBatch, AssetObject, Db,
}
use openfotos_platform.Platform.{Platform, Head}

abbrev pub is_original : Variant → Bool
is_original Variant.original = true
is_original _ = false

abbrev pub is_verified : UploadObjectState → Bool
is_verified UploadObjectState.verified = true
is_verified _ = false

abbrev pub is_excluded : UploadObjectState → Bool
is_excluded UploadObjectState.excluded = true
is_excluded _ = false

-- `state__in=(VERIFIED, EXCLUDED)`
abbrev pub is_terminal : UploadObjectState → Bool
is_terminal s = is_verified s || is_excluded s

abbrev pub is_reserved_batch : ContributionState → Bool
is_reserved_batch ContributionState.reserved = true
is_reserved_batch _ = false

abbrev pub is_complete_batch : ContributionState → Bool
is_complete_batch ContributionState.complete = true
is_complete_batch _ = false

abbrev pub is_cancelled_batch : ContributionState → Bool
is_cancelled_batch ContributionState.cancelled = true
is_cancelled_batch _ = false

abbrev pub is_active : InstallationStatus → Bool
is_active InstallationStatus.active = true
is_active InstallationStatus.revoked = false

-- `column = value` for a column that may be NULL
abbrev pub is_some_of : Option ℕ → ℕ → Bool
is_some_of none n = false
is_some_of (some m) n = m == n

-- `lease_expires_at is not None and lease_expires_at > now`
abbrev pub lease_active : ℕ → AssetObject → Bool
lease_active now o = elim o.lease_expires_at [ none ↦ false | some t ↦ ltb now t ]

-- `len(x)` between bounds, and no control character
unfoldable pub has_control : Text → Bool
has_control s = any (λ c. ltb c 32) s

-- The original of an asset.
abbrev pub is_original_of : ℕ → AssetObject → Bool
is_original_of asset o = o.asset == asset && is_original o.variant

abbrev pub in_batch : ℕ → AssetObject → Bool
in_batch batch o = o.batch == batch

unfoldable pub event_for_session : DesktopSession → ℕ → Db → Result Code Event
event_for_session s event_id db = do
  raise_if (not (db.event.id == event_id && db.event.photographer == s.photographer))
      Code.event_not_found
  raise_if
      (not (
        any (λ m. m.photographer == db.event.photographer && (m.user == s.user && m.is_active))
          db.memberships))
      Code.event_not_found
  ok db.event

-- The active installation of the session's user and workstation.
abbrev pub is_session_installation : DesktopSession → EventInstallation → Bool
is_session_installation s i =
    is_some_of i.user s.user && (i.installation_id == s.installation_id && is_active i.status)

unfoldable pub existing_contribution_installation :
    DesktopSession → Db → Result Code EventInstallation
existing_contribution_installation s db =
    or_raise Code.batch_not_found (find (is_session_installation s) db.installations)

-- Is the sub-event archived? A batch's sub-event is a row of the event (a foreign key).
unfoldable pub sub_event_archived : ℕ → Db → Bool
sub_event_archived sub db = any (λ r. r.id == sub && r.is_archived) db.sub_events

unfoldable pub owned_batch : DesktopSession → ℕ → Db → Result Code ContributionBatch
unfolding existing_contribution_installation sub_event_archived
owned_batch s batch_id db = do
  batch ← or_raise Code.batch_not_found (find (λ b. b.id == batch_id) db.batches)
  installation ← existing_contribution_installation s db
  raise_if (not (batch.installation == installation.id)) Code.batch_not_found
  raise_if (sub_event_archived batch.sub_event db) Code.sub_event_archived
  ok batch

unfoldable pub manageable_upload : ℕ → Db → Result Code AssetObject
unfolding sub_event_archived
manageable_upload asset_id db = do
  upload ← or_raise Code.asset_not_found (find (is_original_of asset_id) db.objects)
  batch ← or_raise Code.row_missing (find (λ b. b.id == upload.batch) db.batches)
  raise_if (sub_event_archived batch.sub_event db) Code.sub_event_archived
  ok upload

-- `upload.save(...)` for the original of an asset.
abbrev pub save_original : AssetObject → Db → Db
save_original o db = record db { objects = replace (is_original_of o.asset) o db.objects }

-- Originals of the batch that are neither verified nor excluded.
abbrev pub is_pending_original : ℕ → AssetObject → Bool
is_pending_original batch o =
    in_batch batch o && (is_original o.variant && not (is_terminal o.state))

unfoldable pub complete_batch_if_terminal : ℕ → ℕ → Db → Db
complete_batch_if_terminal batch_id now db =
    if any (is_pending_original batch_id) db.objects then db else record db {
      batches =
          update (λ b. b.id == batch_id && is_reserved_batch b.state)
            (λ b. record b { state = ContributionState.complete; completed_at = some now })
            db.batches;
    }

-- `partition(";")[0]`
unfoldable pub before_semicolon : Text → Text
before_semicolon [] = []
before_semicolon (c ∷ cs) = let rest = c ∷ before_semicolon cs in if c == b';' then [] else rest

abbrev pub is_checksum : Option Text → Text → Bool
is_checksum none t = false
is_checksum (some s) t = s =ᵗ t

module _ (p : Platform) where
  open p use {Bucket, head, delete, md5_hex, lower}

  -- `_object_mismatch`; `none` is the empty code.
  unfoldable pub object_mismatch : AssetObject → Head → Option Code
  object_mismatch upload h =
      if not (h.content_length == upload.expected_bytes)
      then some Code.asset_size_mismatch
      else if not (before_semicolon (lower h.content_type) =ᵗ upload.content_type)
      then some Code.asset_content_type_mismatch
      else if not (is_checksum h.sha256 upload.sha256)
      then some Code.asset_checksum_mismatch
      else if not (lower h.etag =ᵗ md5_hex upload.content_md5)
      then some Code.asset_checksum_mismatch
      else none

  abbrev pub after_delete : Bool × Bucket → Result Code (Unit {0}) × Bucket
  after_delete (true, b) = (ok tt, b)
  after_delete (false, b) = (err Code.object_store_unavailable, b)

  unfoldable pub delete_unverified_object : Text → Bucket → Result Code (Unit {0}) × Bucket
  delete_unverified_object key b = elim (head key b) [
    | none ↦ (err Code.object_store_unavailable, b)
    | some none ↦ (ok tt, b)
    | some (some h) ↦ after_delete (delete key b)
  ]

  -- The database and the object store.
  pub record World : Type 0 where
    pub db : Db
    pub bucket : Bucket

  -- What follows a read that may raise.
  abbrev pub and_then {ℓ κ} :
      {A : Type ℓ} {B : Type κ}
      → Result Code A
      → (A → World → Result Code B × World)
      → World
      → Result Code B × World
  and_then (ok a) f w = f a w
  and_then (err c) f w = (err c, w)
