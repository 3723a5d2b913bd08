-- ===== src/Ingest/Counters/Publication.antt =====
-- A publication gives back exactly what the contributions that it leaves out had reserved.
use openfotos_platform.Ingest.Counters.Keeps.{Keeps-refusal, Keeps-done, Keeps-and_then, Keeps}
use openfotos_platform.Prelude.{
  [], ◌∷◌, ◌++◌, ℕ, ◌+◌, ◌-◌, ◌≡◌, refl, true, List, ok, err, update, total, total-update,
  total-ext, if_ind, if◌then◌else◌, arith, Result, ◌≢◌,
}
use openfotos_platform.States.{EventState, ◌=ˢ◌}
use openfotos_platform.Models.{
  ManifestDocument, Code, Event, AssetObject, ContributionBatch, IngestionManifest, Db, is_set,
}
use openfotos_platform.Platform.{Platform}
use openfotos_platform.Ingest.Rows.{World}
use openfotos_platform.Ingest.Publish.{
  ingestion_manifest_key, commit_rows, snapshot_document, is_left_out, is_dropped,
  is_dropped_verified, sum_where, left_out_row, leave_out, reduced, published_event, publish_rows,
  store_and_publish, commit_publication_snapshot, store_document, publication_checks,
}
use openfotos_platform.Ingest.Counters.{
  live_bytes, live_count, delivered_bytes, delivered_count, IsExact, CountersExact,
  save_event-exact, Settles, bind-Settles,
}
use openfotos_platform.Ingest.Counters.Release.{decrease-le, decrease-le}

module _ (batches : List ContributionBatch) (objects : List AssetObject) (actor : ℕ) where
  abbrev kept : List AssetObject
  kept = update (λ o. is_left_out batches o.batch) (left_out_row actor) objects

  -- A weight that a left out row loses is the weight of the rows that the publication subtracts.
  split :
      (w v : AssetObject → ℕ)
      → ((o : AssetObject) → w (left_out_row actor o) ≡ 0)
      → ((o : AssetObject) → (if is_left_out batches o.batch then w o else 0) ≡ v o)
      → total w kept + total v objects ≡ total w objects
  split w v gone same = omega (
    arith,
    total-update w (λ o. is_left_out batches o.batch) (left_out_row actor) (λ o _. gone o) objects,
    total-ext (λ o. if is_left_out batches o.batch then w o else 0) v same objects,
  )

  split_bytes :
      total live_bytes kept + sum_where (is_dropped batches) (λ o. o.expected_bytes) objects
      ≡ total live_bytes objects
  split_bytes = split live_bytes _ (λ o. ground arith) (λ o. ground arith)

  split_count :
      total live_count kept + sum_where (is_dropped batches) (λ o. 1) objects
      ≡ total live_count objects
  split_count = split live_count _ (λ o. ground arith) (λ o. ground arith)

  split_verified_bytes :
      total delivered_bytes kept
        + sum_where (is_dropped_verified batches) (λ o. o.expected_bytes) objects
      ≡ total delivered_bytes objects
  split_verified_bytes = split delivered_bytes _ (λ o. ground arith) (λ o. ground arith)

  split_verified_count :
      total delivered_count kept + sum_where (is_dropped_verified batches) (λ o. 1) objects
      ≡ total delivered_count objects
  split_verified_count = split delivered_count _ (λ o. ground arith) (λ o. ground arith)

  abbrev dropped_bytes : ℕ
  dropped_bytes = sum_where (is_dropped batches) (λ o. o.expected_bytes) objects

  abbrev dropped_count : ℕ
  dropped_count = sum_where (is_dropped batches) (λ o. 1) objects

  abbrev dropped_verified_bytes : ℕ
  dropped_verified_bytes = sum_where (is_dropped_verified batches) (λ o. o.expected_bytes) objects

  abbrev dropped_verified_count : ℕ
  dropped_verified_count = sum_where (is_dropped_verified batches) (λ o. 1) objects

  abbrev reduced_event : Event → Event
  reduced_event e = record e {
    reserved_original_bytes = e.reserved_original_bytes - dropped_bytes;
    reserved_original_count = e.reserved_original_count - dropped_count;
    verified_original_bytes = e.verified_original_bytes - dropped_verified_bytes;
    verified_original_count = e.verified_original_count - dropped_verified_count;
  }

  -- The subtractions are never refused.
  reduced-ok : (e : Event) → IsExact e objects → reduced batches objects e ≡ ok (reduced_event e)
  unfolding reduced
  reduced-ok e x =
      rw
        (
          decrease-le e.reserved_original_bytes dropped_bytes
              (omega (arith, split_bytes, x.reserved_bytes)),
          decrease-le e.reserved_original_count dropped_count
              (omega (arith, split_count, x.reserved_count)),
          decrease-le e.verified_original_bytes dropped_verified_bytes
              (omega (arith, split_verified_bytes, x.verified_bytes)),
          decrease-le e.verified_original_count dropped_verified_count
              (omega (arith, split_verified_count, x.verified_count)),
        )
        refl

  -- What they leave are the totals of the rows that are kept.
  IsExact-published :
      (e : Event)
      → IsExact e objects
      → is_set e.expires_at ≡ true
      → IsExact (published_event (reduced_event e)) kept
  IsExact-published e x expiry = record {
    reserved_bytes = omega (arith, split_bytes, x.reserved_bytes);
    reserved_count = omega (arith, split_count, x.reserved_count);
    verified_bytes = omega (arith, split_verified_bytes, x.verified_bytes);
    verified_count = omega (arith, split_verified_count, x.verified_count);
    within_bytes = omega (arith, x.within_bytes);
    within_count = omega (arith, x.within_count);
    expiry = expiry;
  }

publication_checks-ne : (db : Db) → publication_checks db ≢ err Code.integrity_error
unfolding publication_checks
publication_checks-ne db e = ground arith

publish_rows-Settles :
    (now actor : ℕ) (manifest : IngestionManifest) (db : Db)
    → CountersExact db
    → is_set db.event.expires_at ≡ true
    → Settles (publish_rows now actor manifest db)
unfolding publish_rows leave_out
publish_rows-Settles now actor manifest db x expiry =
    let (db', saved, y, _, _) =
      save_event-exact now (published_event (reduced_event db.batches db.objects actor db.event))
        (record (leave_out actor db) { manifests = db.manifests ++ manifest ∷ [] })
        (IsExact-published db.batches db.objects actor db.event x expiry) in
    rw (reduced-ok db.batches db.objects actor db.event x, saved) y

module _ (p : Platform) where
  store_document-ne :
      (key : List ℕ) (document : ManifestDocument) (b : p.Bucket)
      → (store_document p key document b).0 ≢ err Code.integrity_error
  unfolding store_document
  store_document-ne key document b e = ground arith

  Keeps-commit_rows :
      {A : Type 0} (r : Result Code (A × Db)) (w : World p)
      → CountersExact w.db
      → Settles r
      → Keeps p (commit_rows p r w)
  Keeps-commit_rows (ok (a, db')) w x y = Keeps-done p a (record w { db = db' }) y
  Keeps-commit_rows (err c) w x y = Keeps-refusal p c w x y

  store_and_publish-Keeps :
      (now actor : ℕ) (w : World p)
      → CountersExact w.db
      → is_set w.db.event.expires_at ≡ true
      → Keeps p (store_and_publish p now actor w)
  unfolding store_and_publish
  store_and_publish-Keeps now actor w x expiry =
      let document = snapshot_document (leave_out actor w.db) in
      let key = ingestion_manifest_key p w.db.event.id w.db.event.intake_generation in
      let (stored, bucket') = store_document p key document w.bucket in
      Keeps-commit_rows _ (record w { bucket = bucket' }) x
        (bind-Settles stored _ (store_document-ne key document w.bucket)
          λ done _. publish_rows-Settles now actor _ w.db x expiry)

  -- From exact totals, and with an expiry set, publishing a snapshot leaves exact totals on every
  -- branch, and no check constraint raises.
  pub commit_publication_snapshot-Keeps :
      (now actor : ℕ) (w : World p)
      → CountersExact w.db
      → is_set w.db.event.expires_at ≡ true
      → Keeps p (commit_publication_snapshot p now actor w)
  unfolding commit_publication_snapshot
  commit_publication_snapshot-Keeps now actor w x expiry =
      if_ind (Keeps p {A = IngestionManifest}) (w.db.event.state =ˢ EventState.published)
        (λ _. record { exact = x; unconstrained = λ e. ground arith })
        (λ _.
          Keeps-and_then p (publication_checks w.db) _ w x (publication_checks-ne w.db)
            λ done _. store_and_publish-Keeps now actor w x expiry)
