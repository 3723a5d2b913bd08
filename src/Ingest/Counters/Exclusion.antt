-- ===== src/Ingest/Counters/Exclusion.antt =====
-- Excluding an original and cancelling a contribution keep the totals exact on every branch.
use openfotos_platform.Ingest.Counters.Release.{
  cancel_rows-exact, drop_original-exact, cancellation_checks-unverified, DerivativesBacked,
}
use openfotos_platform.Ingest.Counters.Keeps.{Keeps-refusal, Keeps-and_then, Keeps-done, Keeps}
use openfotos_platform.Prelude.{
  [], ◌∷◌, ◌∷◌, ℕ, ◌≡◌, false, some, List, ok, err, find, keep, if_ind, arith, Result, ◌≢◌, ◌>>=◌,
  Text,
}
use openfotos_platform.Models.{Code, AssetObject, Db, ContributionBatch, DesktopSession, AuditEntry}
use openfotos_platform.Platform.{Platform}
use openfotos_platform.Ingest.Rows.{
  World, is_verified, is_excluded, is_original_of, in_batch, is_cancelled_batch, lease_active,
  event_for_session, delete_unverified_object,
}
use openfotos_platform.Ingest.Exclude.{
  cancellable_batch, excludable_original, cancellation_checks, conclude, exclude_locked,
  exclude_asset, delete_all, cancel_locked, cancel_batch,
}
use openfotos_platform.Ingest.Counters.{CountersExact}
use openfotos_platform.Ingest.Counters.Upload.{find_own}

cancellation_checks-ne :
    (now batch : ℕ) (db : Db) → cancellation_checks now batch db ≢ err Code.integrity_error
unfolding cancellation_checks
cancellation_checks-ne now batch db e = ground arith

module _ (p : Platform) where
  -- The object store's answer first, then writes that settle.
  pub Keeps-conclude :
      {A : Type 0} (a : A) (entry : AuditEntry) (removed : Result Code (Unit {0}))
      (writes : Result Code Db) (w : World p)
      → CountersExact w.db
      → removed ≢ err Code.integrity_error
      → (db' : Db) × (writes ≡ ok db') × CountersExact db'
      → Keeps p (conclude p a entry (removed >>= (λ _. writes)) w)
  Keeps-conclude a entry (ok done) writes w x fine (db', e, y) =
      rw (e, conclude) (record { exact = y; unconstrained = λ e'. cc })
  Keeps-conclude a entry (err c) writes w x fine settled = record {
    exact = x;
    unconstrained = λ e. fine (cc);
  }

  delete_unverified_object-ne :
      (key : Text) (b : p.Bucket) → (delete_unverified_object p key b).0 ≢ err Code.integrity_error
  unfolding delete_unverified_object
  delete_unverified_object-ne key b e = ground arith

  delete_all-ne :
      (os : List AssetObject) (b : p.Bucket) → (delete_all p os b).0 ≢ err Code.integrity_error
  unfolding delete_all delete_unverified_object
  delete_all-ne [] b e = cc
  delete_all-ne (o ∷ os) b e =
      ground (arith, delete_all-ne os (delete_unverified_object p o.object_key b).1)

  exclude_locked-Keeps :
      (now user asset_id : ℕ) (reason : Text) (o : AssetObject) (w : World p)
      → find (is_original_of o.asset) w.db.objects ≡ some o
      → is_verified o.state ≡ false
      → CountersExact w.db
      → Keeps p (exclude_locked p now user asset_id reason o w)
  exclude_locked-Keeps now user asset_id reason o w found pending x =
      if_ind (Keeps p {A = AssetObject}) (is_excluded o.state) (λ _. Keeps-done p o w x)
        (λ kept.
          if_ind (Keeps p {A = AssetObject}) (lease_active now o)
            (λ _. Keeps-refusal p _ w x (λ e. cc))
            (λ _.
              Keeps-conclude _ _ (delete_unverified_object p o.object_key w.bucket).0 _ _ x
                (delete_unverified_object-ne o.object_key w.bucket)
                (drop_original-exact w.db o found x pending kept now user reason)))

  excludable_original-ne :
      (s : DesktopSession) (event_id asset_id now : ℕ) (reason : Text) (db : Db)
      → excludable_original p s event_id asset_id now reason db ≢ err Code.integrity_error
  unfolding excludable_original event_for_session
  excludable_original-ne s event_id asset_id now reason db e = ground arith

  excludable_original-found :
      (s : DesktopSession) (event_id asset_id now : ℕ) (reason : Text) (db : Db) (o : AssetObject)
      → excludable_original p s event_id asset_id now reason db ≡ ok o
      → (find (is_original_of asset_id) db.objects ≡ some o) × (is_verified o.state ≡ false)
  unfolding excludable_original event_for_session
  excludable_original-found s event_id asset_id now reason db o e = ground arith

  -- From exact totals, an exclusion leaves exact totals on every branch, and no check constraint
  -- raises.
  pub exclude_asset-Keeps :
      (s : DesktopSession) (event_id asset_id now : ℕ) (reason : Text) (w : World p)
      → CountersExact w.db
      → Keeps p (exclude_asset p s event_id asset_id now reason w)
  unfolding exclude_asset
  exclude_asset-Keeps s event_id asset_id now reason w x =
      let text = p.strip reason in
      Keeps-and_then p (excludable_original p s event_id asset_id now text w.db) _ w x
        (excludable_original-ne s event_id asset_id now text w.db)
        λ o e.
          let (found, pending) = excludable_original-found s event_id asset_id now text w.db o e in
          exclude_locked-Keeps now s.user asset_id text o w (find_own asset_id w.db.objects o found)
            pending x

  cancel_locked-Keeps :
      (now user : ℕ) (b : ContributionBatch) (w : World p)
      → CountersExact w.db
      → DerivativesBacked w.db.objects
      → Keeps p (cancel_locked p now user b w)
  cancel_locked-Keeps now user b w x backed =
      if_ind (Keeps p {A = ContributionBatch}) (is_cancelled_batch b.state)
        (λ _. Keeps-done p b w x)
        (λ _.
          Keeps-and_then p (cancellation_checks now b.id w.db) _ w x
            (cancellation_checks-ne now b.id w.db)
            λ done e.
              let unverified = cancellation_checks-unverified now b.id w.db e in
              Keeps-conclude _ _ (delete_all p (keep (in_batch b.id) w.db.objects) w.bucket).0 _ _ x
                (delete_all-ne _ w.bucket)
                (cancel_rows-exact now user b w.db x unverified (backed b.id unverified)))

  cancellable_batch-ne :
      (s : DesktopSession) (event_id batch_id : ℕ) (db : Db)
      → cancellable_batch p s event_id batch_id db ≢ err Code.integrity_error
  unfolding cancellable_batch event_for_session
  cancellable_batch-ne s event_id batch_id db e = ground arith

  -- From exact totals, and where each batch with previews or thumbnails that are not excluded has a
  -- verified upload, a cancellation leaves exact totals on every branch, and no check constraint
  -- raises.
  pub cancel_batch-Keeps :
      (s : DesktopSession) (event_id batch_id now : ℕ) (w : World p)
      → CountersExact w.db
      → DerivativesBacked w.db.objects
      → Keeps p (cancel_batch p s event_id batch_id now w)
  unfolding cancel_batch
  cancel_batch-Keeps s event_id batch_id now w x backed =
      Keeps-and_then p (cancellable_batch p s event_id batch_id w.db) _ w x
        (cancellable_batch-ne s event_id batch_id w.db)
        λ b _. cancel_locked-Keeps now s.user b w x backed
