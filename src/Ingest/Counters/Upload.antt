-- ===== src/Ingest/Counters/Upload.antt =====
-- Verifying an upload keeps the totals exact, whatever the object store answers and whatever
-- happened between the inspection and the lock.
use openfotos_platform.Prelude.{
  ℕ, ◌≡◌, refl, true, false, Option, none, some, List, ok, err, find, replace, total-replace,
  find_sound, Option-cases, Result-cases, if_ind, inl, inr, if◌then◌else◌, arith, Result, subst,
  ◌>>=◌,
}
use openfotos_platform.Models.{Code, AssetObject, Db, DesktopSession}
use openfotos_platform.Platform.{Platform, Head}
use openfotos_platform.Ingest.Rows.{
  World, is_verified, is_excluded, is_original_of, save_original, complete_batch_if_terminal,
  object_mismatch, event_for_session, manageable_upload,
}
use openfotos_platform.Ingest.Verify.{
  verified_row, failed_row, count_verified, accept_upload, refuse_excluded, reject_upload,
  settle_upload, verify_locked, verify_uploaded_object, inspect, audited, already_verified,
}
use openfotos_platform.Ingest.Counters.{
  live_bytes, live_count, delivered_bytes, delivered_count, IsExact, CountersExact,
  save_event-exact, CountersExact-complete_batch,
}

-- The original of an asset, found in the rows, is found by its own asset id.
pub find_own :
    (asset : ℕ) (objects : List AssetObject) (o : AssetObject)
    → find (is_original_of asset) objects ≡ some o
    → find (is_original_of o.asset) objects ≡ some o
find_own asset objects o h =
    subst (λ a. find (is_original_of a) objects ≡ some o)
      (own_id (find_sound (is_original_of asset) objects o h)) h
  where
    own_id : is_original_of asset o ≡ true → asset ≡ o.asset
    own_id t = ground arith

module _ (db : Db) (o : AssetObject) (found : find (is_original_of o.asset) db.objects ≡ some o)
    (exact : CountersExact db) (pending : is_verified o.state ≡ false)
    (kept : is_excluded o.state ≡ false) where
  IsExact-count_verified :
      (now : ℕ) (h : Head)
      → IsExact
          (count_verified o db.event)
          (replace (is_original_of o.asset) (verified_row now h o) db.objects)
  IsExact-count_verified now h =
      let mine = is_original_of o.asset in
      let row = verified_row now h o in
      ground (
        arith,
        find_sound mine db.objects o found,
        total-replace live_bytes mine row db.objects o found,
        total-replace live_count mine row db.objects o found,
        total-replace delivered_bytes mine row db.objects o found,
        total-replace delivered_count mine row db.objects o found,
      )

  CountersExact-failed_row : (c : Code) → CountersExact (save_original (failed_row c o) db)
  CountersExact-failed_row c =
      let mine = is_original_of o.asset in
      let row = failed_row c o in
      ground (
        arith,
        find_sound mine db.objects o found,
        total-replace live_bytes mine row db.objects o found,
        total-replace live_count mine row db.objects o found,
        total-replace delivered_bytes mine row db.objects o found,
        total-replace delivered_count mine row db.objects o found,
      )

  accept_upload-exact :
      (now : ℕ) (h : Head) → (db' : Db) × (accept_upload now h o db ≡ ok db') × CountersExact db'
  unfolding accept_upload
  accept_upload-exact now h =
      let (saved, e, x, _, _) =
        save_event-exact now (count_verified o db.event) (save_original (verified_row now h o) db)
          (IsExact-count_verified now h) in
      (
        complete_batch_if_terminal o.batch now saved,
        rw e refl,
        CountersExact-complete_batch o.batch now saved x,
      )

module _ (p : Platform) where
  abbrev WorldExact : World p → Type 0
  WorldExact w = CountersExact w.db

  abbrev LeavesExact : Result Code AssetObject × World p → Type 0
  LeavesExact r = WorldExact r.1

  refuse_excluded-WorldExact :
      (o : AssetObject) (w : World p) → WorldExact w → WorldExact (refuse_excluded p o w).1
  unfolding refuse_excluded
  refuse_excluded-WorldExact o w x = x

  reject_upload-WorldExact :
      (c : Code) (o : AssetObject) (w : World p)
      → WorldExact w
      → CountersExact (save_original (failed_row c o) w.db)
      → WorldExact (reject_upload p c o w).1
  unfolding reject_upload
  reject_upload-WorldExact c o w x y = ground arith

  settle_upload-WorldExact :
      (now : ℕ) (h : Head) (o : AssetObject) (w : World p)
      → find (is_original_of o.asset) w.db.objects ≡ some o
      → is_verified o.state ≡ false
      → is_excluded o.state ≡ false
      → WorldExact w
      → WorldExact (settle_upload p now h o w).1
  unfolding settle_upload
  settle_upload-WorldExact now h o w found pending kept x =
      elim (Option-cases (object_mismatch p o h)) [
        | inl e ↦
            let (db', a, y) = accept_upload-exact w.db o found x pending kept now h in
            rw (e, settle_upload) (rw a y)
        | inr (c, e) ↦
            rw (e, settle_upload)
              (reject_upload-WorldExact c o w x
                (CountersExact-failed_row w.db o found x pending kept c))
      ]

  -- The locked part of a verification keeps exact totals exact, for any answer of the object store
  -- that was read before the lock and for any database of exact totals at the lock.
  pub verify_locked-CountersExact :
      (now : ℕ) (h : Head) (asset_id : ℕ) (w : World p)
      → CountersExact w.db
      → CountersExact (verify_locked p now h asset_id w).1.db
  unfolding verify_locked
  verify_locked-CountersExact now h asset_id w x =
      elim (Option-cases (find (is_original_of asset_id) w.db.objects)) [
        | inl e ↦ rw (e, verify_locked) x
        | inr (o, e) ↦ rw (e, verify_locked) (locked o (find_own asset_id w.db.objects o e))
      ]
    where
      locked :
          (o : AssetObject)
          → find (is_original_of o.asset) w.db.objects ≡ some o
          → WorldExact
              (if is_verified o.state
                then (ok o, w)
                else if is_excluded o.state
                then refuse_excluded p o w
                else settle_upload p now h o w).1
      locked o e =
          if_ind LeavesExact (is_verified o.state) (λ _. x)
            (λ v.
              if_ind LeavesExact (is_excluded o.state) (λ _. refuse_excluded-WorldExact o w x)
                (λ d. settle_upload-WorldExact now h o w e v d x))

  audited-WorldExact :
      (asset_id : ℕ) (r : Result Code AssetObject × World p)
      → WorldExact r.1
      → WorldExact (audited p asset_id r).1
  audited-WorldExact asset_id (ok o, w) x = x
  audited-WorldExact asset_id (err c, w) x = x

  inspect-WorldExact :
      (now asset_id : ℕ) (answer : Option (Option Head)) (w : World p)
      → WorldExact w
      → WorldExact (inspect p now asset_id answer w).1
  inspect-WorldExact now asset_id none w x = x
  inspect-WorldExact now asset_id (some none) w x = x
  inspect-WorldExact now asset_id (some (some h)) w x =
      let settled = verify_locked-CountersExact now h asset_id w x in
      if_ind LeavesExact (already_verified p asset_id w.db) (λ _. settled)
        (λ _. audited-WorldExact asset_id (verify_locked p now h asset_id w) settled)

  -- A verification keeps exact totals exact on every branch: a match, a mismatch that is recorded
  -- although the request raises, and each refusal.
  pub verify_uploaded_object-CountersExact :
      (s : DesktopSession) (event_id asset_id now : ℕ) (w : World p)
      → CountersExact w.db
      → CountersExact (verify_uploaded_object p s event_id asset_id now w).1.db
  unfolding verify_uploaded_object
  verify_uploaded_object-CountersExact s event_id asset_id now w x =
      elim (Result-cases
        (event_for_session s event_id w.db >>= (λ event. manageable_upload asset_id w.db))) [
          | inr (c, e) ↦ rw (e, verify_uploaded_object) x
          | inl (o, e) ↦
              rw (e, verify_uploaded_object)
                (if_ind LeavesExact (is_verified o.state) (λ _. x)
                  (λ _.
                    if_ind LeavesExact (is_excluded o.state) (λ _. refuse_excluded-WorldExact o w x)
                      (λ _. inspect-WorldExact now asset_id (p.head o.object_key w.bucket) w x)))
        ]
