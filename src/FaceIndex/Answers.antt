-- ===== src/FaceIndex/Answers.antt =====
-- What a refresh of the face index's readiness answers and writes.
use openfotos_platform.Prelude.{
  ℕ, ◌≡◌, refl, Bool, true, false, ◌&&◌, Option, none, some, ok, arith, if◌then◌else◌, Bool-cases,
  inl, inr,
}
use openfotos_platform.Models.{Db}
use openfotos_platform.Derivatives.{manifest_is_current}
use openfotos_platform.Ingest.Counters.{CountersExact, save_event-exact}
use openfotos_platform.FaceIndex.{
  refresh_face_index_readiness, save_face_readiness, is_face_ready, same_generation,
}

-- The index is complete: the manifest is current, something is shown, and every shown photo has a
-- finished analysis.
abbrev pub is_index_complete : Db → Bool
is_index_complete db = manifest_is_current db && is_face_ready db

abbrev pub index_readiness : Db → Option ℕ
index_readiness db = if is_index_complete db then some db.event.intake_generation else none

same_generation_sound : (a b : Option ℕ) → same_generation a b ≡ true → a ≡ b
same_generation_sound none none e = refl
same_generation_sound none (some b) e = ground arith
same_generation_sound (some a) none e = ground arith
same_generation_sound (some a) (some b) e = ground arith

save_face_readiness-exact :
    (now : ℕ) (ready : Bool) (generation : Option ℕ) (db : Db)
    → CountersExact db
    → (db' : Db) × (save_face_readiness now ready generation db ≡ ok (ready, db'))
      × (db'.event.face_index_ready_generation ≡ generation)
      × (db'.event.state ≡ db.event.state)
      × (db'.event.derivatives_ready_generation ≡ db.event.derivatives_ready_generation)
      × CountersExact db'
save_face_readiness-exact now ready generation db x =
    elim (Bool-cases (same_generation db.event.face_index_ready_generation generation)) [
      | inl e ↦ (
        db,
        rw e refl,
        same_generation_sound db.event.face_index_ready_generation generation e,
        refl,
        refl,
        x,
      )
      | inr e ↦
          let (saved, es, y, rows, event) =
            save_event-exact now (record db.event { face_index_ready_generation = generation }) db
              (ground arith) in
          (saved, rw (e, es) refl, rw event refl, rw event refl, rw event refl, y)
    ]

-- With exact totals a refresh of the face index never raises: it answers whether the index is
-- complete, records exactly that, and leaves the event's state, the gallery's readiness and exact totals.
pub refresh_face-answers :
    (now : ℕ) (db : Db)
    → CountersExact db
    → (db' : Db) × (refresh_face_index_readiness now db ≡ ok (is_index_complete db, db'))
      × (db'.event.face_index_ready_generation ≡ index_readiness db)
      × (db'.event.state ≡ db.event.state)
      × (db'.event.derivatives_ready_generation ≡ db.event.derivatives_ready_generation)
      × CountersExact db'
unfolding refresh_face_index_readiness
refresh_face-answers now db x = elim (Bool-cases (manifest_is_current db)) [
  | inr e ↦ rw e (save_face_readiness-exact now false none db x)
  | inl e ↦ rw e (save_face_readiness-exact now (is_face_ready db) _ db x)
]
