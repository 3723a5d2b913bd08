-- ===== src/RateLimits/Table.antt =====
-- What the operations on the table of buckets do to the count of one bucket.
use openfotos_platform.Prelude.{
  leb, none, ℕ, ◌≡◌, refl, true, not, List, [], ◌∷◌, find, keep, arith, =ᵗ_refl,
}
use openfotos_platform.RateLimits.{
  is_full, RateLimitPurpose, same_purpose, Identity, RateLimitBucket, same_subject, is_bucket,
  forget_stale, failures_of, save_failures,
}

same_purpose_refl : (p : RateLimitPurpose) → same_purpose p p ≡ true
same_purpose_refl p = ground arith

-- A row with an identity's own values is its bucket.
pub is_bucket_self :
    (i : Identity) (n : ℕ) → is_bucket i (record { identity = i; failures = n }) ≡ true
unfolding same_subject
is_bucket_self i n =
    ground (arith, same_purpose_refl i.purpose, =ᵗ_refl i.subject_hash, =ᵗ_refl i.client_hash)

same_subject-failures :
    (i : Identity) (n : ℕ) (r : RateLimitBucket)
    → same_subject i (record r { failures = n }) ≡ same_subject i r
unfolding same_subject
same_subject-failures i n r = refl

-- The count that is saved is the count that is read.
pub failures_of-save_failures :
    (i : Identity) (n : ℕ) (rows : List RateLimitBucket)
    → failures_of i (save_failures i n rows) ≡ n
unfolding save_failures find
failures_of-save_failures i n [] = ground (arith, is_bucket_self i n)
failures_of-save_failures i n (r ∷ rows) =
    ground (arith, same_subject-failures i n r, failures_of-save_failures i n rows)

-- Forgetting the stale rows of an identity keeps its current bucket.
pub failures_of-forget_stale :
    (i : Identity) (rows : List RateLimitBucket)
    → failures_of i (forget_stale i rows) ≡ failures_of i rows
unfolding find keep
failures_of-forget_stale i [] = refl
failures_of-forget_stale i (r ∷ rows) = ground (arith, failures_of-forget_stale i rows)

-- A saved bucket is full exactly when the count reaches the limit.
pub is_full-save_failures :
    (limit : ℕ) (i : Identity) (n : ℕ) (rows : List RateLimitBucket)
    → is_full limit (find (is_bucket i) (save_failures i n rows)) ≡ leb limit n
unfolding save_failures find
is_full-save_failures limit i n [] = ground (arith, is_bucket_self i n)
is_full-save_failures limit i n (r ∷ rows) =
    ground (arith, same_subject-failures i n r, is_full-save_failures limit i n rows)

-- After a clearance there is no bucket.
pub find-cleared :
    (i : Identity) (rows : List RateLimitBucket)
    → find (is_bucket i) (keep (λ r. not (same_subject i r)) rows) ≡ none
unfolding find keep
find-cleared i [] = refl
find-cleared i (r ∷ rows) = ground (arith, find-cleared i rows)
