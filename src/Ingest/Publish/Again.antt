-- ===== src/Ingest/Publish/Again.antt =====
-- A publication that is asked for again.
use openfotos_platform.Prelude.{
  >>=-eq-ok, ◌>>=◌, Text, Option, or_raise, ℕ, ◌≡◌, refl, Bool, true, false, none, some, List, [],
  ◌∷◌, ◌++◌, ok, err, arith, any, find, find-append, Bool-cases, inl, inr, ◌==◌, ==_refl, Result,
}
use openfotos_platform.States.{=ˢ_sound, EventState, ◌=ˢ◌}
use openfotos_platform.Models.{IngestionManifest, Db, Code, save_event, decrease}
use openfotos_platform.Platform.{Platform}
use openfotos_platform.Ingest.Rows.{World}
use openfotos_platform.Ingest.Publish.{
  ManifestDocument, and_then, publication_checks, reduced, leave_out, publish_rows,
  current_manifest, manifest_of, store_and_publish, commit_publication_snapshot, snapshot_document,
  ingestion_manifest_key, store_document, commit_rows,
}

any-find :
    (q : IngestionManifest → Bool) (rows : List IngestionManifest)
    → any q rows ≡ false
    → find q rows ≡ none
unfolding any find
any-find q [] h = refl
any-find q (r ∷ rows) h = ground (arith, any-find q rows)

checks-fresh :
    (db : Db)
    → publication_checks db ≡ ok tt
    → any (λ m. m.generation == db.event.intake_generation) db.manifests ≡ false
unfolding publication_checks
checks-fresh db h = ground arith

-- What the rows of a publication say.
publish_rows-result :
    (now actor : ℕ) (m m' : IngestionManifest) (db db' : Db)
    → publish_rows now actor m db ≡ ok (m', db')
    → (m' ≡ m)
      × (db'.event.state ≡ EventState.published)
      × (db'.event.current_ingestion_manifest ≡ some db.event.intake_generation)
      × (db'.manifests ≡ db.manifests ++ m ∷ [])
unfolding publish_rows reduced leave_out save_event decrease
publish_rows-result now actor m m' db db' h = ground arith

current_manifest-published :
    (g : ℕ) (m : IngestionManifest) (db db' : Db)
    → any (λ x. x.generation == g) db.manifests ≡ false
    → m.generation ≡ g
    → db'.event.current_ingestion_manifest ≡ some g
    → db'.manifests ≡ db.manifests ++ m ∷ []
    → current_manifest db' ≡ some m
unfolding current_manifest
current_manifest-published g m db db' fresh own current manifests =
    rw (current_manifest, current, manifests)
      (find-append (λ x. x.generation == g) db.manifests m
        (any-find (λ x. x.generation == g) db.manifests fresh) (rw own (==_refl g)))

-- The event is published and points to the manifest.
record IsPublished (m : IngestionManifest) (db : Db) : Type 0 where
  pub state : db.event.state ≡ EventState.published
  pub manifest : current_manifest db ≡ some m

module _ (p : Platform) where
  committed_rows :
      (r : Result Code (IngestionManifest × Db)) (w : World p) (m : IngestionManifest)
      → (commit_rows p r w).0 ≡ ok m
      → (db' : Db) × (r ≡ ok (m, db')) × ((commit_rows p r w).1.db ≡ db')
  committed_rows (ok (x, db')) w m e = (db', ground arith, refl)
  committed_rows (err c) w m e = ground arith

  of_generation :
      (document : ManifestDocument) (g : ℕ) (key sha256 : Text) (now : ℕ)
      → (manifest_of document g key sha256 now).generation ≡ g
  unfolding manifest_of
  of_generation document g key sha256 now = refl

  store_and_publish-IsPublished :
      (now actor : ℕ) (w : World p) (m : IngestionManifest)
      → publication_checks w.db ≡ ok tt
      → (store_and_publish p now actor w).0 ≡ ok m
      → IsPublished m (store_and_publish p now actor w).1.db
  unfolding store_and_publish
  store_and_publish-IsPublished now actor w m checked e =
      let document = snapshot_document (leave_out actor w.db) in
      let g = w.db.event.intake_generation in
      let key = ingestion_manifest_key p w.db.event.id g in
      let sha256 = p.document_sha256 document in
      let fresh = manifest_of document g key sha256 now in
      let stored = store_document p key document w.bucket in
      let (db', r, same) =
        committed_rows (stored.0 >>= (λ done. publish_rows now actor fresh w.db))
          (record w { bucket = stored.1 }) m e in
      let (done, put, published) =
        >>=-eq-ok stored.0 (λ done. publish_rows now actor fresh w.db) r in
      let (is, state, current, manifests) =
        publish_rows-result now actor fresh m w.db db' published in
      rw same (record {
        state = state;
        manifest = ground (
          arith,
          is,
          current_manifest-published g fresh w.db db' (checks-fresh w.db checked)
              (of_generation document g key sha256 now) current manifests,
        );
      })

  commit_published :
      (now actor : ℕ) (w : World p)
      → (w.db.event.state =ˢ EventState.published) ≡ true
      → commit_publication_snapshot p now actor w
        ≡ (or_raise Code.publication_snapshot_missing (current_manifest w.db), w)
  unfolding commit_publication_snapshot
  commit_published now actor w h = rw (commit_publication_snapshot, h) refl

  commit_unpublished :
      (now actor : ℕ) (w : World p)
      → (w.db.event.state =ˢ EventState.published) ≡ false
      → commit_publication_snapshot p now actor w
        ≡ and_then p (publication_checks w.db) (λ done. store_and_publish p now actor) w
  unfolding commit_publication_snapshot
  commit_unpublished now actor w h = rw (commit_publication_snapshot, h) refl

  and_then-IsPublished :
      (now actor : ℕ) (w : World p) (m : IngestionManifest) (checks : Result Code (Unit {0}))
      → publication_checks w.db ≡ checks
      → (and_then p checks (λ done. store_and_publish p now actor) w).0 ≡ ok m
      → IsPublished m (and_then p checks (λ done. store_and_publish p now actor) w).1.db
  and_then-IsPublished now actor w m (ok tt) checked e =
      store_and_publish-IsPublished now actor w m checked e
  and_then-IsPublished now actor w m (err c) checked e = ground arith

  returned :
      (o : Option IngestionManifest) (m : IngestionManifest)
      → or_raise Code.publication_snapshot_missing o ≡ ok m
      → o ≡ some m
  returned o m e = ground arith

  published_again :
      (now actor : ℕ) (w : World p) (m : IngestionManifest)
      → IsPublished m w.db
      → commit_publication_snapshot p now actor w ≡ (ok m, w)
  unfolding commit_publication_snapshot
  published_again now actor w m x = ground (arith, x.state, x.manifest)

  commit-IsPublished :
      (now actor : ℕ) (w : World p) (m : IngestionManifest)
      → (commit_publication_snapshot p now actor w).0 ≡ ok m
      → IsPublished m (commit_publication_snapshot p now actor w).1.db
  commit-IsPublished now actor w m e =
      elim (Bool-cases (w.db.event.state =ˢ EventState.published)) [
        | inl h ↦
            let same = commit_published now actor w h in
            let kept : IsPublished m w.db = record {
              state = =ˢ_sound w.db.event.state EventState.published h;
              manifest = returned (current_manifest w.db) m (ground (arith, same, e));
            } in
            rw same kept
        | inr h ↦
            let same = commit_unpublished now actor w h in
            rw same (
              and_then-IsPublished now actor w m (publication_checks w.db) refl
                (ground (arith, same, e)))
      ]

  -- A publication that returned a manifest leaves the event Published, and when it is asked for again
  -- it returns the same manifest and changes neither the database nor the object store.
  pub commit_publication_snapshot-repeats :
      (now later actor other : ℕ) (w : World p) (m : IngestionManifest)
      → (commit_publication_snapshot p now actor w).0 ≡ ok m
      → let w' = (commit_publication_snapshot p now actor w).1 in
        (w'.db.event.state ≡ EventState.published)
        × (commit_publication_snapshot p later other w' ≡ (ok m, w'))
  commit_publication_snapshot-repeats now later actor other w m e =
      let x = commit-IsPublished now actor w m e in
      (x.state, published_again later other (commit_publication_snapshot p now actor w).1 m x)
