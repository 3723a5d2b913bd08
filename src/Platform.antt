-- ===== src/Platform.antt =====
-- What the server calls and does not implement: the object store behind
-- packages/storage/src/openfotos_storage/backend.py (S3), the digests of canonical JSON documents, and
-- the text functions of Python. Nothing is assumed of them here; a theorem that relies on a law of
-- theirs names it.
use openfotos_platform.Prelude.{ℕ, Bool, Option, Text, List}
use openfotos_platform.Models.{ManifestDocument}

-- `ObjectHead`; the checksum is `metadata.get("openfotos-sha256")`.
pub record Head : Type 0 where
  pub content_length : ℕ
  pub content_type : Text
  pub etag : Text
  pub sha256 : Option Text

pub record Lease : Type 0 where
  pub url : Text
  pub expires_at : ℕ

pub data PutOutcome : Type 0 where
  stored already_exists failed : PutOutcome

-- One asset of a contribution's canonical document.
pub record OriginalAsset : Type 0 where
  pub id : ℕ
  pub filename : Text
  pub content_type : Text
  pub size_bytes : ℕ
  pub sha256 : Text
  pub content_md5 : Text
  pub width : ℕ
  pub height : ℕ

pub record ContributionDocument : Type 0 where
  pub batch_id : ℕ
  pub sub_event_id : ℕ
  pub label : Text
  pub processing_profile_id : Text
  pub assets : List OriginalAsset

pub record Platform : Type 1 where
  pub Bucket : Type 0
  -- `none` is an `ObjectStoreError`; `some none` says that no object has the key.
  pub head : Text → Bucket → Option (Option Head)
  -- Whether the deletion was acknowledged, and the bucket after it.
  pub delete : Text → Bucket → Bool × Bucket
  pub put_immutable :
      (key : Text) (body : ManifestDocument) (sha256 : Text) → Bucket → PutOutcome × Bucket
  -- `none` is an `ObjectStoreError`.
  pub presign_put :
      (key : Text) (content_length : ℕ) (content_md5 sha256 content_type : Text) (ttl : ℕ)
      → Bucket
      → Option Lease
  pub contribution_sha256 : ContributionDocument → Text
  pub document_sha256 : ManifestDocument → Text
  pub document_length : ManifestDocument → ℕ
  -- `base64.b64decode(x).hex()`
  pub md5_hex : Text → Text
  pub lower : Text → Text
  pub strip : Text → Text
  -- `str(uuid)`, and `f"{n:06d}"`
  pub uuid_text : ℕ → Text
  pub six_digits : ℕ → Text
  pub upload_lease_page_size : ℕ
  pub upload_lease_ttl_seconds : ℕ
