-- ===== src/RateLimits/Window.antt =====
-- The window of a time, and the wait that a refused client is told.
use openfotos_platform.Prelude.{ℕ, ◌+◌, ◌*◌, ◌≤◌, ◌<◌, arith}
use openfotos_platform.RateLimits.{window_start, retry_after, microseconds}

-- For a window of positive length, the window of a time holds that time: it starts no later and ends
-- after it.
pub window_start-bounds :
    (at w : ℕ) → 0 < w → (window_start at w ≤ at) × (at < window_start at w + w * microseconds)
unfolding window_start
window_start-bounds at w h = omega arith

-- For a window of positive length, waiting as long as told leads to a time at or after the end of the
-- window, and the wait is at least one second and at most one second longer than the window.
pub retry_after-reaches_end :
    (at w : ℕ)
    → 0 < w
    → let start = window_start at w in
      (start + w * microseconds ≤ at + retry_after at start w * microseconds)
      × (1 ≤ retry_after at start w)
      × (retry_after at start w ≤ w + 1)
unfolding retry_after
retry_after-reaches_end at w h =
    let (lower, upper) = window_start-bounds at w h in omega (arith, lower, upper)
