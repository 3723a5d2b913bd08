-- ===== src/Ingest/Counters/Release.antt =====
-- What an exclusion or a cancellation gives back is what its rows had reserved.
use openfotos_platform.Prelude.{
  ℕ, ◌+◌, ◌-◌, ◌≤◌, ◌≡◌, refl, Bool, true, false, not, ◌&&◌, ◌||◌, some, List, ok, find, update,
  any, total, total-replace, total-update, total-agree, total-zero, find_sound, if◌then◌else◌,
  arith, ◌∙◌, Text,
}
use openfotos_platform.States.{EventState, ◌=ˢ◌}
use openfotos_platform.Models.{
  Event, AssetObject, Db, ContributionBatch, decrease, is_set, event_original_asset_limit,
}
use openfotos_platform.Ingest.Rows.{
  is_original, is_verified, is_excluded, is_original_of, in_batch, save_original,
  complete_batch_if_terminal,
}
use openfotos_platform.Ingest.Exclude.{
  release, excluded_row, drop_original, is_releasable, releasable_bytes, releasable_count,
  cancellation_checks, cancel_rows,
}
use openfotos_platform.Ingest.Counters.{
  live_bytes, live_count, delivered_bytes, delivered_count, IsExact, CountersExact,
  save_event-exact, CountersExact-complete_batch,
}

-- An event whose totals exceed those of the rows by an amount that is given back.
pub record IsOwed (bytes count : ℕ) (e : Event) (objects : List AssetObject) : Type 0 where
  reserved_bytes : e.reserved_original_bytes ≡ bytes + total live_bytes objects
  reserved_count : e.reserved_original_count ≡ count + total live_count objects
  verified_bytes : e.verified_original_bytes ≡ total delivered_bytes objects
  verified_count : e.verified_original_count ≡ total delivered_count objects
  within_bytes : e.reserved_original_bytes ≤ e.storage_limit_bytes
  within_count : e.reserved_original_count ≤ event_original_asset_limit
  expiry : (not (e.state =ˢ EventState.published) || is_set e.expires_at) ≡ true

pub decrease-le : (a b : ℕ) → b ≤ a → decrease a b ≡ ok (a - b)
unfolding decrease
decrease-le a b h = ground arith

abbrev shrunk : (bytes count : ℕ) → Event → Event
shrunk bytes count e = record e {
  reserved_original_bytes = e.reserved_original_bytes - bytes;
  reserved_original_count = e.reserved_original_count - count;
}

IsOwed-shrunk :
    (bytes count : ℕ) (e : Event) (objects : List AssetObject)
    → IsOwed bytes count e objects
    → IsExact (shrunk bytes count e) objects
IsOwed-shrunk bytes count e objects x = ground arith

-- What is owed is released without a raise, and the totals are exact again.
pub release-exact :
    (now bytes count : ℕ) (db : Db)
    → IsOwed bytes count db.event db.objects
    → (db' : Db) × (release now bytes count db ≡ ok db') × CountersExact db'
unfolding release
release-exact now bytes count db x =
    let (db', e, y, _, _) =
      save_event-exact now (shrunk bytes count db.event) db
        (IsOwed-shrunk bytes count db.event db.objects x) in
    (
      db',
      rw
          (
            decrease-le db.event.reserved_original_bytes bytes (omega (arith, x.reserved_bytes)),
            decrease-le db.event.reserved_original_count count (omega (arith, x.reserved_count)),
          )
          e,
      y,
    )

module _ (db : Db) (o : AssetObject) (found : find (is_original_of o.asset) db.objects ≡ some o)
    (exact : CountersExact db) (pending : is_verified o.state ≡ false)
    (kept : is_excluded o.state ≡ false) where
  IsOwed-excluded_row :
      (user : ℕ) (reason : Text)
      → IsOwed o.expected_bytes 1 db.event (save_original (excluded_row user reason o) db).objects
  IsOwed-excluded_row user reason =
      let mine = is_original_of o.asset in
      let row = excluded_row user reason o in
      ground (
        arith,
        find_sound mine db.objects o found,
        total-replace live_bytes mine row db.objects o found,
        total-replace live_count mine row db.objects o found,
        total-replace delivered_bytes mine row db.objects o found,
        total-replace delivered_count mine row db.objects o found,
      )

  pub drop_original-exact :
      (now user : ℕ) (reason : Text)
      → (db' : Db) × (drop_original now user reason o db ≡ ok db') × CountersExact db'
  unfolding drop_original
  drop_original-exact now user reason =
      let (released, e, x) =
        release-exact now o.expected_bytes 1 (save_original (excluded_row user reason o) db)
          (IsOwed-excluded_row user reason) in
      (
        complete_batch_if_terminal o.batch now released,
        rw e refl,
        CountersExact-complete_batch o.batch now released x,
      )

-- An upload of the batch that would be released although it is no original.
abbrev pub is_stray : ℕ → AssetObject → Bool
is_stray batch o = is_releasable batch o && not (is_original o.variant)

-- A batch with a preview or thumbnail that is not excluded has a verified upload.
abbrev pub DerivativesBacked : List AssetObject → Type 0
DerivativesBacked objects =
    (batch : ℕ)
    → any (λ o. in_batch batch o && is_verified o.state) objects ≡ false
    → any (is_stray batch) objects ≡ false

-- What the rows of a cancelled batch weigh under a weight `w`.
abbrev pub released : (AssetObject → ℕ) → (batch : ℕ) → List AssetObject → ℕ
released w batch objects = total (λ o. if is_releasable batch o then w o else 0) objects

module _ (batch : ℕ) (objects : List AssetObject)
    (unverified : any (λ o. in_batch batch o && is_verified o.state) objects ≡ false)
    (no_stray : any (is_stray batch) objects ≡ false) where
  released-live_bytes : released live_bytes batch objects ≡ releasable_bytes batch objects
  released-live_bytes = total-agree _ _ (is_stray batch) (λ o h. ground arith) objects no_stray

  released-live_count : released live_count batch objects ≡ releasable_count batch objects
  released-live_count = total-agree _ _ (is_stray batch) (λ o h. ground arith) objects no_stray

  released-delivered_bytes : released delivered_bytes batch objects ≡ 0
  released-delivered_bytes =
      total-agree _ (λ o. 0) (λ o. in_batch batch o && is_verified o.state) (λ o h. ground arith)
        objects unverified
      ∙ total-zero objects

  released-delivered_count : released delivered_count batch objects ≡ 0
  released-delivered_count =
      total-agree _ (λ o. 0) (λ o. in_batch batch o && is_verified o.state) (λ o h. ground arith)
        objects unverified
      ∙ total-zero objects

  IsOwed-cancelled :
      (user : ℕ) (reason : Text) (e : Event)
      → IsExact e objects
      → IsOwed
          (releasable_bytes batch objects)
          (releasable_count batch objects)
          e
          (update (is_releasable batch) (excluded_row user reason) objects)
  IsOwed-cancelled user reason e x =
      let change = excluded_row user reason in
      let b1 = total-update live_bytes (is_releasable batch) change (λ o h. ground arith) objects in
      let b2 = total-update live_count (is_releasable batch) change (λ o h. ground arith) objects in
      let b3 =
        total-update delivered_bytes (is_releasable batch) change (λ o h. ground arith) objects in
      let b4 =
        total-update delivered_count (is_releasable batch) change (λ o h. ground arith) objects in
      record {
        reserved_bytes = omega (arith, b1, released-live_bytes, x.reserved_bytes);
        reserved_count = omega (arith, b2, released-live_count, x.reserved_count);
        verified_bytes = omega (arith, b3, released-delivered_bytes, x.verified_bytes);
        verified_count = omega (arith, b4, released-delivered_count, x.verified_count);
        within_bytes = x.within_bytes;
        within_count = x.within_count;
        expiry = x.expiry;
      }

pub cancel_rows-exact :
    (now user : ℕ) (b : ContributionBatch) (db : Db)
    → CountersExact db
    → any (λ o. in_batch b.id o && is_verified o.state) db.objects ≡ false
    → any (is_stray b.id) db.objects ≡ false
    → (db' : Db) × (cancel_rows now user b db ≡ ok db') × CountersExact db'
unfolding cancel_rows
cancel_rows-exact now user b db x unverified no_stray =
    release-exact now (releasable_bytes b.id db.objects) (releasable_count b.id db.objects) _
      (IsOwed-cancelled b.id db.objects unverified no_stray user _ db.event x)

pub cancellation_checks-unverified :
    (now batch : ℕ) (db : Db)
    → cancellation_checks now batch db ≡ ok tt
    → any (λ o. in_batch batch o && is_verified o.state) db.objects ≡ false
unfolding cancellation_checks
cancellation_checks-unverified now batch db h = ground arith
