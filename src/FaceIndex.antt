-- ===== src/FaceIndex.antt =====
-- `refresh_face_index_readiness` of apps/server/src/openfotos_server/events/face_services.py.
pub mod Answers
use openfotos_platform.Prelude.{
  ℕ, Bool, true, false, not, ◌&&◌, Option, none, some, List, [], ◌∷◌, Result, ok, err, ◌>>=◌, ◌==◌,
  ◌=ᵗ◌, any, keep, length, if◌then◌else◌,
}
use openfotos_platform.Models.{
  Code, Event, Asset, FaceAnalysis, FaceAnalysisState, Db, save_event, is_set,
}
use openfotos_platform.Ingest.Status.{is_terminal_face}
use openfotos_platform.Derivatives.{manifest_is_current, shown_assets}

-- A finished analysis of a shown photo, of the bytes and by the model that are current.
abbrev pub is_ready_face : Db → FaceAnalysis → Bool
is_ready_face db f =
    any (λ a. a.id == f.asset && f.source_sha256 =ᵗ a.sha256) (shown_assets db)
    && (is_terminal_face f.state && f.model_id =ᵗ db.event.face_model_id)

unfoldable pub ready_faces : Db → ℕ
ready_faces db = length (keep (is_ready_face db) db.faces)

abbrev pub same_generation : Option ℕ → Option ℕ → Bool
same_generation none none = true
same_generation (some a) (some b) = a == b
same_generation _ _ = false

-- The event is saved only where its readiness changes.
abbrev pub save_face_readiness : (now : ℕ) → Bool → Option ℕ → Db → Result Code (Bool × Db)
save_face_readiness now ready generation db =
    if same_generation db.event.face_index_ready_generation generation then ok (ready, db) else (do
      saved ← save_event now (record db.event { face_index_ready_generation = generation }) db
      ok (ready, saved))

abbrev pub is_face_ready : Db → Bool
is_face_ready db = not (length (shown_assets db) == 0) && ready_faces db == length (shown_assets db)

unfoldable pub refresh_face_index_readiness : (now : ℕ) → Db → Result Code (Bool × Db)
refresh_face_index_readiness now db =
    if not (manifest_is_current db)
    then save_face_readiness now false none db
    else save_face_readiness now (is_face_ready db)
        (if is_face_ready db then some db.event.intake_generation else none) db
