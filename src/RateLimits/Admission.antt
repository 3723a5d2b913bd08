-- ===== src/RateLimits/Admission.antt =====
-- How many attempts a window admits.
use openfotos_platform.Prelude.{
  ◌-◌, find, length, ℕ, ◌+◌, ◌≡◌, refl, false, List, [], ◌∷◌, leb, min, arith, if◌then◌else◌,
}
use openfotos_platform.RateLimits.{
  window_of, window_start, Hashing, Settings, Attempt, Identity, RateLimitBucket, limit_of,
  bucket_identity, failures_of, forget_stale, save_failures, consume_attempt, register_failure,
  rate_limit_status, clear_failures, is_bucket, is_full, status_at,
}
use openfotos_platform.RateLimits.Table.{
  failures_of-save_failures, failures_of-forget_stale, find-cleared, is_full-save_failures,
}

abbrev bumped : ℕ → ℕ → ℕ
bumped limit n = if leb limit n then n else n + 1

module _ (h : Hashing) (s : Settings) (a : Attempt) where
  -- One attempt is refused exactly when the count of its window has reached the limit, and counts
  -- otherwise.
  consume_attempt_lem :
      (at : ℕ) (i : Identity) (rows : List RateLimitBucket)
      → bucket_identity h s at a ≡ i
      → ((consume_attempt h s at a rows).0.limited
          ≡ leb (limit_of s a.purpose) (failures_of i rows))
        × (failures_of i (consume_attempt h s at a rows).1
            ≡ bumped (limit_of s a.purpose) (failures_of i rows))
  unfolding consume_attempt
  consume_attempt_lem at i rows e =
      let forgotten = failures_of-forget_stale i rows in
      rw e (
        ground (
          arith,
          forgotten,
          failures_of-save_failures i (failures_of i rows) (forget_stale i rows),
          failures_of-save_failures i (failures_of i rows + 1) (forget_stale i rows),
        ))

  -- How many of the attempts at these times, one after the other, are admitted.
  abbrev pub admitted : List ℕ → List RateLimitBucket → ℕ
  admitted [] rows = 0
  admitted (at ∷ later) rows =
      let (status, rows') = consume_attempt h s at a rows in
      let rest = admitted later rows' in if status.limited then rest else rest + 1

  abbrev pub AllInWindow : (start : ℕ) → List ℕ → Type 0
  AllInWindow start [] = Unit {0}
  AllInWindow start (at ∷ later) =
      (window_start at (window_of s a.purpose) ≡ start) × AllInWindow start later

  same_identity :
      (t at : ℕ)
      → window_start at (window_of s a.purpose) ≡ window_start t (window_of s a.purpose)
      → bucket_identity h s at a ≡ bucket_identity h s t a
  unfolding bucket_identity
  same_identity t at e = cc

  -- Of the attempts of one window exactly as many are admitted as the limit leaves room for, however
  -- many there are; the rest are refused.
  pub admitted-eq-min :
      (t : ℕ) (times : List ℕ) (rows : List RateLimitBucket)
      → AllInWindow (window_start t (window_of s a.purpose)) times
      → admitted times rows
        ≡ min (length times) (limit_of s a.purpose - failures_of (bucket_identity h s t a) rows)
  admitted-eq-min t [] rows all = omega arith
  admitted-eq-min t (at ∷ later) rows (here, there) =
      let i = bucket_identity h s t a in
      let (refused, counted) = consume_attempt_lem at i rows (same_identity t at here) in
      ground
        (arith, refused, counted, admitted-eq-min t later (consume_attempt h s at a rows).1 there)

  status_lem :
      (at : ℕ) (rows : List RateLimitBucket)
      → rate_limit_status h s at a rows
        ≡ status_at h s at a
            (is_full (limit_of s a.purpose) (find (is_bucket (bucket_identity h s at a)) rows))
  unfolding rate_limit_status
  status_lem at rows = refl

  -- A failure counts one more in its bucket, and a query at the same time answers what the
  -- registration answered.
  pub register_then_status :
      (at : ℕ) (rows : List RateLimitBucket)
      → let (status, rows') = register_failure h s at a rows in
        (failures_of (bucket_identity h s at a) rows'
          ≡ failures_of (bucket_identity h s at a) rows + 1)
        × (rate_limit_status h s at a rows' ≡ status)
  unfolding register_failure
  register_then_status at rows =
      let i = bucket_identity h s at a in
      let current = forget_stale i rows in
      let forgotten = failures_of-forget_stale i rows in
      let n = failures_of i current + 1 in
      let full = is_full-save_failures (limit_of s a.purpose) i n current in
      (
        ground (arith, forgotten, failures_of-save_failures i n current),
        ground (arith, status_lem at (save_failures i n current), full),
      )

  -- After a clearance the client is not limited in that window.
  pub clear_then_status :
      (at : ℕ) (rows : List RateLimitBucket)
      → (rate_limit_status h s at a (clear_failures h s at a rows)).limited ≡ false
  unfolding clear_failures rate_limit_status
  clear_then_status at rows = ground (arith, find-cleared (bucket_identity h s at a) rows)
