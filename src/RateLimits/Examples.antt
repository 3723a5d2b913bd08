-- ===== src/RateLimits/Examples.antt =====
-- Runs of the limits for one client, and the witnesses of their theorems.
use openfotos_platform.RateLimits.Window.{retry_after-reaches_end}
use openfotos_platform.RateLimits.Admission.{
  AllInWindow, register_then_status, admitted-eq-min, admitted,
}
use openfotos_platform.Prelude.{
  ℕ, List, ◌≡◌, refl, true, [], ◌∷◌, ◌+◌, ◌≤◌, ◌*◌, arith, length, ◌-◌, min,
}
use openfotos_platform.RateLimits.{
  Identity, window_of, register_failure, bucket_identity, limit_of, failures_of, rate_limit_status,
  RateLimitPurpose, Settings, Hashing, Attempt, window_start, retry_after, microseconds,
}

abbrev plain_hashing : Hashing
plain_hashing = record { privacy_hash = λ value purpose. value; casefold = λ t. t }

abbrev two_per_minute : Settings
two_per_minute = record {
  auth_failure_limit = 2;
  auth_failure_window_seconds = 60;
  portal_pin_failure_limit = 2;
  face_search_client_limit = 2;
  face_search_capability_limit = 2;
  face_search_limit_window_seconds = 60;
}

abbrev login : Attempt
login = record {
  purpose = RateLimitPurpose.photographer_login;
  subject = 7 ∷ [];
  request_client_hash = 8 ∷ [];
  client_scoped = true;
  client_identifier = [];
}

abbrev three_times : List ℕ
three_times = 61000000 ∷ 62000000 ∷ 119000000 ∷ []

abbrev login_bucket : Identity
login_bucket = bucket_identity plain_hashing two_per_minute 61000000 login

three_times-AllInWindow :
    AllInWindow plain_hashing two_per_minute login
      (window_start 61000000 (window_of two_per_minute login.purpose))
      three_times
unfolding window_start window_of
three_times-AllInWindow = (refl, (refl, (refl, tt)))

admitted-eq-min_example :
    admitted plain_hashing two_per_minute login three_times []
    ≡ min
        (length three_times)
        (limit_of two_per_minute RateLimitPurpose.photographer_login - failures_of login_bucket [])
admitted-eq-min_example =
    admitted-eq-min plain_hashing two_per_minute login 61000000 three_times []
      three_times-AllInWindow

register_then_status_example :
    (failures_of
        (bucket_identity plain_hashing two_per_minute 61000000 login)
        (register_failure plain_hashing two_per_minute 61000000 login []).1
      ≡ failures_of (bucket_identity plain_hashing two_per_minute 61000000 login) [] + 1)
    × (rate_limit_status plain_hashing two_per_minute 61000000 login
          (register_failure plain_hashing two_per_minute 61000000 login []).1
        ≡ (register_failure plain_hashing two_per_minute 61000000 login []).0)
register_then_status_example = register_then_status plain_hashing two_per_minute login 61000000 []

retry_after-reaches_end_example :
    (window_start 61000000 60 + 60 * microseconds
      ≤ 61000000 + retry_after 61000000 (window_start 61000000 60) 60 * microseconds)
    × (1 ≤ retry_after 61000000 (window_start 61000000 60) 60)
    × (retry_after 61000000 (window_start 61000000 60) 60 ≤ 60 + 1)
retry_after-reaches_end_example = retry_after-reaches_end 61000000 60 (ground arith)
