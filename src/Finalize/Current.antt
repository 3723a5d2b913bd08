-- ===== src/Finalize/Current.antt =====
-- What a finalization leaves behind, whatever other requests do while the document is stored.
use openfotos_platform.States.{IntakeState}
use openfotos_platform.Prelude.{[], ◌∷◌, ◌==◌, none, refl, false, ◌≡◌, arith}
use openfotos_platform.Derivatives.{refresh_derivative_readiness}
use openfotos_platform.FaceIndex.{refresh_face_index_readiness}
use openfotos_platform.Models.{save_event}
use openfotos_platform.Prelude.{find}
use openfotos_platform.Ingest.Publish.{current_manifest, commit_rows}
use openfotos_platform.Ingest.Rows.{event_for_session, World, and_then}
use openfotos_platform.Finalize.{
  ◌∷◌, err, Code, Option, List, Result, ok, Bool, EventState, DesktopSession, ℕ, current_manifest,
  Platform, some, is_open, Db, IngestionManifest, refresh_derivative_readiness, save_event,
  refresh_face_index_readiness, Preparation, finalized_manifest, commit_finalization, prepare,
  store_manifest, refresh_readiness, finish, finalize_ingestion,
}

-- The intake is closed, and the event points to the manifest of its generation.
record IsFinalized (m : IngestionManifest) (db : Db) : Type 0 where
  pub closed : is_open db.event.intake_state ≡ false
  pub generation : m.generation ≡ db.event.intake_generation
  pub current : db.event.current_ingestion_manifest ≡ some db.event.intake_generation

-- The fields that a refresh of the readiness leaves alone.
record IsSameIntake (db db' : Db) : Type 0 where
  pub state : db'.event.intake_state ≡ db.event.intake_state
  pub generation : db'.event.intake_generation ≡ db.event.intake_generation
  pub manifest : db'.event.current_ingestion_manifest ≡ db.event.current_ingestion_manifest

still-IsFinalized :
    (m : IngestionManifest) (db db' : Db)
    → IsSameIntake db db'
    → IsFinalized m db
    → IsFinalized m db'
still-IsFinalized m db db' x y = record {
  closed = ground (arith, x.state, y.closed);
  generation = ground (arith, x.generation, y.generation);
  current = ground (arith, x.manifest, x.generation, y.current);
}

derivatives-IsSameIntake :
    (now : ℕ) (db db' : Db) (ready : Bool)
    → refresh_derivative_readiness now db ≡ ok (ready, db')
    → IsSameIntake db db'
unfolding refresh_derivative_readiness save_event
derivatives-IsSameIntake now db db' ready h = record {
  state = ground arith;
  generation = ground arith;
  manifest = ground arith;
}

faces-IsSameIntake :
    (now : ℕ) (db db' : Db) (ready : Bool)
    → refresh_face_index_readiness now db ≡ ok (ready, db')
    → IsSameIntake db db'
unfolding refresh_face_index_readiness save_event
faces-IsSameIntake now db db' ready h = record {
  state = ground arith;
  generation = ground arith;
  manifest = ground arith;
}

commit-IsFinalized :
    (now g : ℕ) (next : EventState) (m : IngestionManifest) (db db' : Db)
    → commit_finalization now g next db ≡ ok (m, db')
    → IsFinalized m db'
unfolding commit_finalization save_event
commit-IsFinalized now g next m db db' h = record {
  closed = ground arith;
  generation = ground arith;
  current = ground arith;
}

finalized-generation :
    (db : Db) (m : IngestionManifest)
    → finalized_manifest db ≡ some m
    → (current_manifest db ≡ some m) × (m.generation ≡ db.event.intake_generation)
unfolding finalized_manifest
finalized-generation db m h = ground arith

found_generation :
    (g : ℕ) (rows : List IngestionManifest) (m : IngestionManifest)
    → find (λ r. r.generation == g) rows ≡ some m
    → m.generation ≡ g
unfolding find
found_generation g [] m h = ground arith
found_generation g (r ∷ rows) m h = ground (arith, found_generation g rows m)

pointed_generation :
    (o : Option ℕ) (rows : List IngestionManifest) (m : IngestionManifest)
    → elim o [ none ↦ none | some g ↦ find (λ r. r.generation == g) rows ] ≡ some m
    → o ≡ some m.generation
pointed_generation none rows m h = ground arith
pointed_generation (some g) rows m h = ground (arith, found_generation g rows m h)

current-generation :
    (db : Db) (m : IngestionManifest)
    → current_manifest db ≡ some m
    → db.event.current_ingestion_manifest ≡ some m.generation
unfolding current_manifest
current-generation db m h = pointed_generation db.event.current_ingestion_manifest db.manifests m h

finished_manifest :
    (db : Db) (m : IngestionManifest)
    → is_open db.event.intake_state ≡ false
    → finalized_manifest db ≡ some m
    → IsFinalized m db
finished_manifest db m closed h =
    let (current, own) = finalized-generation db m h in
    record {
      closed = closed;
      generation = own;
      current = ground (arith, current-generation db m current, own);
    }

is_closed : (i : IntakeState) → is_open i ≡ false → i ≡ IntakeState.closed
is_closed IntakeState.open_ h = ground arith
is_closed IntakeState.closed h = refl

module _ (p : Platform) where
  finished-prepared :
      (s : DesktopSession) (event_id : ℕ) (m : IngestionManifest) (db db' : Db)
      → prepare p s event_id db ≡ ok (Preparation.finished m, db')
      → (is_open db.event.intake_state ≡ false) × (finalized_manifest db ≡ some m) × (db' ≡ db)
  unfolding prepare event_for_session
  finished-prepared s event_id m db db' h = ground arith

  finished-IsFinalized :
      (s : DesktopSession) (event_id : ℕ) (m : IngestionManifest) (db db' : Db)
      → prepare p s event_id db ≡ ok (Preparation.finished m, db')
      → IsFinalized m db'
  finished-IsFinalized s event_id m db db' h =
      let (closed, finished, same) = finished-prepared s event_id m db db' h in
      rw same (finished_manifest db m closed finished)

  -- What follows a read that returned, and what follows a transaction that did.
  after_read {ℓ κ} :
      {A : Type ℓ} {B : Type κ} (r : Result Code A) (next : A → World p → Result Code B × World p)
      (w w' : World p) (b : B)
      → and_then p r next w ≡ (ok b, w')
      → (a : A) × (r ≡ ok a) × (next a w ≡ (ok b, w'))
  after_read (ok a) next w w' b e = (a, refl, e)
  after_read (err c) next w w' b e = ground arith

  after_rows {ℓ κ} :
      {A : Type ℓ} {B : Type κ} (r : Result Code (A × Db))
      (next : A → World p → Result Code B × World p) (w w' : World p) (b : B)
      → and_then p (commit_rows p r w).0 next (commit_rows p r w).1 ≡ (ok b, w')
      → (a : A) × (db' : Db) × (r ≡ ok (a, db')) × (next a (record w { db = db' }) ≡ (ok b, w'))
  after_rows (ok (a, db')) next w w' b e = (a, db', refl, e)
  after_rows (err c) next w w' b e = ground arith

  returned :
      (m m' : IngestionManifest) (w w' : World p)
      → ◌≡◌ {A = Result Code IngestionManifest × World p} (ok m, w) (ok m', w')
      → IsFinalized m w.db
      → IsFinalized m' w'.db
  returned m m' w w' e x = record {
    closed = ground (arith, e, x.closed);
    generation = ground (arith, e, x.generation);
    current = ground (arith, e, x.current);
  }

  refresh-IsFinalized :
      (now : ℕ) (m m' : IngestionManifest) (w w' : World p)
      → IsFinalized m w.db
      → refresh_readiness p now m w ≡ (ok m', w')
      → IsFinalized m' w'.db
  unfolding refresh_readiness
  refresh-IsFinalized now m m' w w' x h =
      let (shown, db1, derivatives, rest) =
        after_rows (refresh_derivative_readiness now w.db) _ w w' m' h in
      let y =
        still-IsFinalized m w.db db1 (derivatives-IsSameIntake now w.db db1 shown derivatives) x in
      let (ready, db2, faces, last) =
        after_rows (refresh_face_index_readiness now db1) _ (record w { db = db1 }) w' m' rest in
      let z = still-IsFinalized m db1 db2 (faces-IsSameIntake now db1 db2 ready faces) y in
      returned m m' (record w { db = db2 }) w' last z

  finish-IsFinalized :
      (now : ℕ) (others : World p → World p) (x : Preparation) (m : IngestionManifest)
      (w w' : World p)
      → ((found : IngestionManifest) → x ≡ Preparation.finished found → IsFinalized found w.db)
      → finish p now others x w ≡ (ok m, w')
      → IsFinalized m w'.db
  unfolding finish
  finish-IsFinalized now others (Preparation.finished found) m w w' known h =
      refresh-IsFinalized now found m w w' (known found refl) h
  finish-IsFinalized now others (Preparation.to_commit next fresh) m w w' known h =
      let stored = store_manifest p fresh w.bucket in
      let later = others (record w { bucket = stored.1 }) in
      let (done, put, rest) = after_read stored.0 _ later w' m h in
      let (found, db', committed, last) =
        after_rows (commit_finalization now fresh.generation next later.db) _ later w' m rest in
      refresh-IsFinalized now found m (record later { db = db' }) w'
        (commit-IsFinalized now fresh.generation next found later.db db' committed) last

  -- A finalization that returns a manifest, whatever other requests do between the storing of the
  -- document and the last transaction, leaves the intake closed and the event pointing to the
  -- manifest of its generation, which is the generation of the manifest that it returns.
  pub finalize_ingestion-current :
      (s : DesktopSession) (event_id now : ℕ) (others : World p → World p) (m : IngestionManifest)
      (w w' : World p)
      → finalize_ingestion p s event_id now others w ≡ (ok m, w')
      → (w'.db.event.intake_state ≡ IntakeState.closed)
        × (m.generation ≡ w'.db.event.intake_generation)
        × (w'.db.event.current_ingestion_manifest ≡ some w'.db.event.intake_generation)
  unfolding finalize_ingestion
  finalize_ingestion-current s event_id now others m w w' h =
      let (x, db', prepared, rest) = after_rows (prepare p s event_id w.db) _ w w' m h in
      let y =
        finish-IsFinalized now others x m (record w { db = db' }) w'
          (λ found e. finished-IsFinalized s event_id found w.db db' (ground (arith, prepared, e)))
          rest in
      (is_closed w'.db.event.intake_state y.closed, y.generation, y.current)
