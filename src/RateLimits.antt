-- ===== src/RateLimits.antt =====
-- apps/server/src/openfotos_server/events/rate_limits.py: fixed-window limits kept in a table of
-- buckets. A time is a number of microseconds since the epoch. The keyed hash of audit.py and
-- `str.casefold` are parameters, and a request is the hash of its client.
pub mod Table
pub mod Admission
pub mod Window
pub mod Examples
use openfotos_platform.Prelude.{
  ◌++◌, ℕ, suc, ◌+◌, ◌-◌, ◌*◌, ◌/◌, ◌%◌, Bool, true, false, not, ◌&&◌, Option, none, some, List, [],
  ◌∷◌, Text, ◌==◌, ◌=ᵗ◌, leb, max, find, keep, if◌then◌else◌,
}
use openfotos_platform.Keys.{codes}

pub data RateLimitPurpose : Type 0 where
  photographer_login portal_pin face_search_client face_search_capability : RateLimitPurpose

abbrev pub same_purpose : RateLimitPurpose → RateLimitPurpose → Bool
same_purpose RateLimitPurpose.photographer_login RateLimitPurpose.photographer_login = true
same_purpose RateLimitPurpose.portal_pin RateLimitPurpose.portal_pin = true
same_purpose RateLimitPurpose.face_search_client RateLimitPurpose.face_search_client = true
same_purpose RateLimitPurpose.face_search_capability RateLimitPurpose.face_search_capability = true
same_purpose _ _ = false

pub record RateLimitStatus : Type 0 where
  pub limited : Bool
  pub retry_after_seconds : ℕ

-- The settings that `_limit_settings` reads.
pub record Settings : Type 0 where
  pub auth_failure_limit : ℕ
  pub auth_failure_window_seconds : ℕ
  pub portal_pin_failure_limit : ℕ
  pub face_search_client_limit : ℕ
  pub face_search_capability_limit : ℕ
  pub face_search_limit_window_seconds : ℕ

unfoldable pub limit_of : Settings → RateLimitPurpose → ℕ
limit_of s RateLimitPurpose.portal_pin = s.portal_pin_failure_limit
limit_of s RateLimitPurpose.face_search_client = s.face_search_client_limit
limit_of s RateLimitPurpose.face_search_capability = s.face_search_capability_limit
limit_of s RateLimitPurpose.photographer_login = s.auth_failure_limit

unfoldable pub window_of : Settings → RateLimitPurpose → ℕ
window_of s RateLimitPurpose.portal_pin = s.auth_failure_window_seconds
window_of s RateLimitPurpose.face_search_client = s.face_search_limit_window_seconds
window_of s RateLimitPurpose.face_search_capability = s.face_search_limit_window_seconds
window_of s RateLimitPurpose.photographer_login = s.auth_failure_window_seconds

abbrev pub microseconds : ℕ
microseconds = 1000000

unfoldable pub window_start : (at window_seconds : ℕ) → ℕ
window_start at window_seconds =
    let epoch_seconds = at / microseconds in
    (epoch_seconds - epoch_seconds % window_seconds) * microseconds

-- A time before the window's end is the only one that is asked for, so `int` rounds down.
unfoldable pub retry_after : (at window_started_at window_seconds : ℕ) → ℕ
retry_after at window_started_at window_seconds =
    max 1 ((window_started_at + window_seconds * microseconds - at) / microseconds + 1)

pub record Identity : Type 0 where
  pub purpose : RateLimitPurpose
  pub subject_hash : Text
  pub client_hash : Text
  pub window_started_at : ℕ

pub record RateLimitBucket : Type 0 where
  pub identity : Identity
  pub failures : ℕ

-- The purpose, the subject and the client of a row are those of the identity.
unfoldable pub same_subject : Identity → RateLimitBucket → Bool
same_subject i r =
    same_purpose r.identity.purpose i.purpose
    && (r.identity.subject_hash =ᵗ i.subject_hash && r.identity.client_hash =ᵗ i.client_hash)

abbrev pub is_bucket : Identity → RateLimitBucket → Bool
is_bucket i r = same_subject i r && r.identity.window_started_at == i.window_started_at

-- The rows of other windows, which a registration deletes.
abbrev pub is_stale : Identity → RateLimitBucket → Bool
is_stale i r = same_subject i r && not (r.identity.window_started_at == i.window_started_at)

abbrev pub forget_stale : Identity → List RateLimitBucket → List RateLimitBucket
forget_stale i rows = keep (λ r. not (is_stale i r)) rows

abbrev pub count_of : Option RateLimitBucket → ℕ
count_of none = 0
count_of (some r) = r.failures

abbrev pub is_full : ℕ → Option RateLimitBucket → Bool
is_full limit none = false
is_full limit (some r) = leb limit r.failures

-- The failures of the bucket, which is created with none.
abbrev pub failures_of : Identity → List RateLimitBucket → ℕ
failures_of i rows = count_of (find (is_bucket i) rows)

-- `get_or_create`, and the save of the number of failures.
unfoldable pub save_failures : Identity → ℕ → List RateLimitBucket → List RateLimitBucket
save_failures i n [] = record { identity = i; failures = n } ∷ []
save_failures i n (r ∷ rows) =
    let rest = r ∷ save_failures i n rows in
    if is_bucket i r then record r { failures = n } ∷ rows else rest

-- `audit.privacy_hash` and `str.casefold`
pub record Hashing : Type 0 where
  pub privacy_hash : (value purpose : Text) → Text
  pub casefold : Text → Text

abbrev pub purpose_text : RateLimitPurpose → Text
purpose_text RateLimitPurpose.photographer_login = codes "photographer_login"
purpose_text RateLimitPurpose.portal_pin = codes "portal_pin"
purpose_text RateLimitPurpose.face_search_client = codes "face_search_client"
purpose_text RateLimitPurpose.face_search_capability = codes "face_search_capability"

-- What a caller gives: the subject, the request's client, and how the client counts.
pub record Attempt : Type 0 where
  pub purpose : RateLimitPurpose
  pub subject : Text
  pub request_client_hash : Text
  pub client_scoped : Bool
  pub client_identifier : Text

module _ (h : Hashing) (s : Settings) where
  open h use {privacy_hash, casefold}

  -- `_client_hash`; an empty identifier counts as none.
  unfoldable pub client_hash : Attempt → Text
  client_hash a =
      if not a.client_scoped
      then privacy_hash (codes "all-clients") (codes "rate-limit:" ++ purpose_text a.purpose)
      else if not (a.client_identifier =ᵗ [])
      then privacy_hash a.client_identifier (codes "rate-limit-client:" ++ purpose_text a.purpose)
      else a.request_client_hash

  unfoldable pub bucket_identity : (at : ℕ) → Attempt → Identity
  bucket_identity at a = record {
    purpose = a.purpose;
    subject_hash =
        privacy_hash (casefold a.subject) (codes "rate-limit:" ++ purpose_text a.purpose);
    client_hash = client_hash a;
    window_started_at = window_start at (window_of s a.purpose);
  }

  abbrev pub status_at : (at : ℕ) → Attempt → Bool → RateLimitStatus
  status_at at a limited = record {
    limited = limited;
    retry_after_seconds =
        retry_after at (window_start at (window_of s a.purpose)) (window_of s a.purpose);
  }

  unfoldable pub rate_limit_status : (at : ℕ) → Attempt → List RateLimitBucket → RateLimitStatus
  rate_limit_status at a rows =
      status_at at a (is_full (limit_of s a.purpose) (find (is_bucket (bucket_identity at a)) rows))

  unfoldable pub register_failure :
      (at : ℕ) → Attempt → List RateLimitBucket → RateLimitStatus × List RateLimitBucket
  register_failure at a rows =
      let i = bucket_identity at a in
      let current = forget_stale i rows in
      let failures = failures_of i current + 1 in
      (status_at at a (leb (limit_of s a.purpose) failures), save_failures i failures current)

  unfoldable pub clear_failures : (at : ℕ) → Attempt → List RateLimitBucket → List RateLimitBucket
  clear_failures at a rows = keep (λ r. not (same_subject (bucket_identity at a) r)) rows

  unfoldable pub consume_attempt :
      (at : ℕ) → Attempt → List RateLimitBucket → RateLimitStatus × List RateLimitBucket
  consume_attempt at a rows =
      let i = bucket_identity at a in
      let current = forget_stale i rows in
      let failures = failures_of i current in
      if leb (limit_of s a.purpose) failures
      then (status_at at a true, save_failures i failures current)
      else (status_at at a false, save_failures i (failures + 1) current)
