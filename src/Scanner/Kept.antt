-- ===== src/Scanner/Kept.antt =====
-- What a scan keeps if each of its steps keeps it.
use openfotos_platform.Checkpoint.Approval.{ScanSummary}
use openfotos_platform.Checkpoint.Batches.{start_scan, list_selections}
use openfotos_platform.Prelude.{
  ℕ, ◌≡◌, ◌∙◌, refl, Bool, Option, none, some, List, [], ◌∷◌, Result, ok, err, ◌>>=◌,
}
use openfotos_platform.Checkpoint.{Store, SelectionRow, Host}
use openfotos_platform.Scanner.{Disk, Found, discover}
use openfotos_platform.Scanner.Scan.{
  conclude, as_failure, pause_after, new_scan, scan, Scan, ScanFailure, visit, visit_all,
  visit_selections, or_out_of_fuel,
}

-- The store after a step, which may fail.
abbrev pub store_of : Result (ScanFailure × Store) Scan → Store
store_of (ok v) = v.store
store_of (err (failure, s)) = s

module _ (h : Host) (disk : Disk) (fresh_id : ℕ → ℕ) (is_cancelled : ℕ → Bool) where
  -- The visits of a scan, and the scan by what they answer.
  abbrev pub visited :
      (fuel batch generation : ℕ) (frozen : Bool) → Store → Result (ScanFailure × Store) Scan
  visited fuel batch generation frozen started =
      visit_selections h disk fresh_id is_cancelled fuel batch generation frozen
        (list_selections batch started) (new_scan started)

  -- How a scan ends after its visits.
  abbrev pub ended_scan :
      (batch generation : ℕ) (frozen : Bool)
      → Result (ScanFailure × Store) Scan
      → Result ScanFailure ScanSummary × Store
  ended_scan batch generation frozen (err failure) =
      pause_after h disk fresh_id is_cancelled batch failure
  ended_scan batch generation frozen (ok v) =
      as_failure h disk fresh_id is_cancelled
        (conclude h disk fresh_id is_cancelled batch generation frozen v)

  pub scan-visited :
      (fuel batch generation : ℕ) (frozen : Bool) (s started : Store)
      → start_scan batch s ≡ ok ((generation, frozen), started)
      → (r : Result (ScanFailure × Store) Scan) → visited fuel batch generation frozen started ≡ r
      → scan h disk fresh_id is_cancelled fuel batch s ≡ ended_scan batch generation frozen r
  unfolding scan
  scan-visited fuel batch generation frozen s started es r ev = rw (scan, es, ev) refl

module _ (h : Host) (disk : Disk) (fresh_id : ℕ → ℕ) (is_cancelled : ℕ → Bool)
    (batch generation : ℕ) (frozen : Bool) {A : Type 0} (kept : Store → A)
    (visit_keeps : (f : Found) (v : Scan)
      → kept (store_of (visit h disk fresh_id is_cancelled batch generation frozen f v))
        ≡ kept v.store) where
  -- A step after a step.
  after_step :
      (first : Result (ScanFailure × Store) Scan) (next : Scan → Result (ScanFailure × Store) Scan)
      → ((w : Scan) → kept (store_of (next w)) ≡ kept w.store)
      → kept (store_of (first >>= next)) ≡ kept (store_of first)
  after_step (ok w) next next_keeps = next_keeps w
  after_step (err (failure, s)) next next_keeps = refl

  visit_all-keeps :
      (fs : List Found) (v : Scan)
      → kept (store_of (visit_all h disk fresh_id is_cancelled batch generation frozen fs v))
        ≡ kept v.store
  unfolding visit_all
  visit_all-keeps [] v = refl
  visit_all-keeps (f ∷ fs) v =
      after_step (visit h disk fresh_id is_cancelled batch generation frozen f v)
        (λ w. visit_all h disk fresh_id is_cancelled batch generation frozen fs w)
        (visit_all-keeps fs)
      ∙ visit_keeps f v

  visit_found-keeps :
      (found : Option (List Found)) (v : Scan)
      → kept (
          store_of (
            or_out_of_fuel h disk fresh_id is_cancelled v found
              (λ fs. visit_all h disk fresh_id is_cancelled batch generation frozen fs v)))
        ≡ kept v.store
  visit_found-keeps none v = refl
  visit_found-keeps (some fs) v = visit_all-keeps fs v

  pub visit_selections-keeps :
      (fuel : ℕ) (rs : List SelectionRow) (v : Scan)
      → kept (
          store_of
            (visit_selections h disk fresh_id is_cancelled fuel batch generation frozen rs v))
        ≡ kept v.store
  unfolding visit_selections
  visit_selections-keeps fuel [] v = refl
  visit_selections-keeps fuel (r ∷ rs) v =
      after_step
        (or_out_of_fuel h disk fresh_id is_cancelled v (discover disk fuel r)
          (λ fs. visit_all h disk fresh_id is_cancelled batch generation frozen fs v))
        (λ w. visit_selections h disk fresh_id is_cancelled fuel batch generation frozen rs w)
        (visit_selections-keeps fuel rs)
      ∙ visit_found-keeps (discover disk fuel r) v
