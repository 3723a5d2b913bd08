-- ===== src/Checkpoint/Faces/Counts.antt =====
-- The counts of the face analyses, through any sequence of the desktop's own commands.
use openfotos_platform.Checkpoint.Previews.{error_or_none}
use openfotos_platform.Prelude.{
  ◌≤◌, Result-cases, ℕ, ◌≡◌, refl, Bool, true, false, not, ◌&&◌, Option, none, some, List, [], ◌∷◌,
  ◌++◌, Text, map, ok, if◌then◌else◌, ◌==◌, any, arith, leb, ltb, inl, inr, any-update-false,
  any-append,
}
use openfotos_platform.Checkpoint.{FaceRow, ItemRow, LocalFaceState, Store}
use openfotos_platform.Checkpoint.Batches.{get_batch}
use openfotos_platform.Checkpoint.Pending.{
  insert_faces, insert_or_ignore, pending_face, accepted_items,
}
use openfotos_platform.Checkpoint.Faces.{
  updated_face, ensure_face_analysis_checkpoints, mark_face_analysis_started,
  mark_face_analysis_failed, mark_face_analysis_complete, mark_face_analysis_excluded,
  update_face_analysis, sync_face_analysis, is_analysed, is_indexed, differ,
}

-- Usable faces are among those detected, and there are some exactly where the analysis is indexed.
abbrev pub has_exact_counts : FaceRow → Bool
has_exact_counts f =
    leb f.usable_face_count f.detected_face_count
    && not (differ (is_indexed f.state) (ltb 0 f.usable_face_count))

abbrev pub FaceCountsExact : Store → Type 0
FaceCountsExact s = any (λ f. not (has_exact_counts f)) s.faces ≡ false

-- A command on the face analyses that succeeds. What the server says of an analysis, which is written as
-- it is, has exact counts.
pub data FaceStep : Store → Store → Type 0 where
  ensure :
      {s s' : Store} (batch : ℕ) → ensure_face_analysis_checkpoints batch s ≡ ok s' → FaceStep s s'
  start :
      {s s' : Store} (now item : ℕ) → mark_face_analysis_started now item s ≡ ok s' → FaceStep s s'
  fail :
      {s s' : Store} (now item : ℕ) (code : Text) (conflict : Bool)
      → mark_face_analysis_failed now item code conflict s ≡ ok s'
      → FaceStep s s'
  finish :
      {s s' : Store} (now item : ℕ) (state : LocalFaceState) (detected usable : ℕ)
      → mark_face_analysis_complete now item state detected usable s ≡ ok s'
      → FaceStep s s'
  sync :
      {s s' : Store} (now item : ℕ) (state : LocalFaceState) (attempt_count : ℕ) (code : Text)
      (detected usable : ℕ)
      → usable ≤ detected
      → is_indexed state ≡ ltb 0 usable
      → sync_face_analysis now item state attempt_count code detected usable s ≡ ok s'
      → FaceStep s s'
  exclude :
      {s s' : Store} (now item : ℕ) → mark_face_analysis_excluded now item s ≡ ok s' → FaceStep s s'

pub data FaceSteps : Store → Store → Type 0 where
  done : {s : Store} → FaceSteps s s
  next : {s t u : Store} → FaceStep s t → FaceSteps t u → FaceSteps s u

insert_or_ignore-none :
    (p : FaceRow → Bool) (same : FaceRow → FaceRow → Bool) (xs rows : List FaceRow)
    → any p xs ≡ false
    → any p rows ≡ false
    → any p (insert_or_ignore same xs rows) ≡ false
unfolding insert_or_ignore any
insert_or_ignore-none p same [] rows e n = n
insert_or_ignore-none p same (x ∷ xs) rows e n =
    insert_or_ignore-none p same xs (if any (same x) rows then rows else rows ++ x ∷ [])
      (ground arith) (ground (arith, any-append p rows (x ∷ [])))

pending_exact :
    (is : List ItemRow) → any (λ f. not (has_exact_counts f)) (map pending_face is) ≡ false
unfolding any
pending_exact [] = refl
pending_exact (i ∷ is) = ground (arith, pending_exact is)

update_face_analysis-exact :
    (now item : ℕ) (state : LocalFaceState) (error : Option Text) (detected usable : ℕ)
    (increment : Bool) (s s' : Store)
    → leb usable detected && not (differ (is_indexed state) (ltb 0 usable)) ≡ true
    → update_face_analysis now item state error detected usable increment s ≡ ok s'
    → FaceCountsExact s
    → FaceCountsExact s'
unfolding update_face_analysis
update_face_analysis-exact now item state error detected usable increment s s' good e exact =
    let updated =
      any-update-false (λ f. not (has_exact_counts f)) (λ f. not (has_exact_counts f))
        (λ f. f.item == item) (updated_face now state error detected usable increment)
        (λ f at. ground (arith, good)) (λ f other before. before) s.faces exact in
    ground (arith, updated)

sync_face_analysis-exact :
    (now item : ℕ) (state : LocalFaceState) (attempt_count : ℕ) (code : Text) (detected usable : ℕ)
    (s s' : Store)
    → usable ≤ detected
    → is_indexed state ≡ ltb 0 usable
    → sync_face_analysis now item state attempt_count code detected usable s ≡ ok s'
    → FaceCountsExact s
    → FaceCountsExact s'
unfolding sync_face_analysis
sync_face_analysis-exact now item state attempt_count code detected usable s s' le is e exact =
    let written : FaceRow → FaceRow = λ f. record f {
      state = state;
      attempt_count = attempt_count;
      last_error_code = error_or_none code;
      detected_face_count = detected;
      usable_face_count = usable;
      completed_at = if is_analysed state then some now else none;
    } in
    let updated =
      any-update-false (λ f. not (has_exact_counts f)) (λ f. not (has_exact_counts f))
        (λ f. f.item == item) written (λ f at. ground (arith, le, is)) (λ f other before. before)
        s.faces exact in
    ground (arith, updated)

FaceStep-exact : {s s' : Store} → FaceStep s s' → FaceCountsExact s → FaceCountsExact s'
unfolding ensure_face_analysis_checkpoints insert_faces mark_face_analysis_complete get_batch
FaceStep-exact {s} {s'} (FaceStep.ensure batch e) exact =
    let kept =
      insert_or_ignore-none (λ f. not (has_exact_counts f)) (λ f g. f.item == g.item)
        (map pending_face (accepted_items batch s)) s.faces (pending_exact (accepted_items batch s))
        exact in
    elim (Result-cases (get_batch batch s)) [
      | inl (b, eb) ↦ ground (arith, kept)
      | inr (c, eb) ↦ absurd (ground arith)
    ]
FaceStep-exact {s} {s'} (FaceStep.start now item e) exact =
    update_face_analysis-exact now item _ none 0 0 true s s' refl e exact
FaceStep-exact {s} {s'} (FaceStep.fail now item code false e) exact =
    update_face_analysis-exact now item _ (some code) 0 0 false s s' refl e exact
FaceStep-exact {s} {s'} (FaceStep.fail now item code true e) exact =
    update_face_analysis-exact now item _ (some code) 0 0 false s s' refl e exact
FaceStep-exact {s} {s'} (FaceStep.finish now item state detected usable e) exact =
    update_face_analysis-exact now item state none detected usable false s s' (ground arith)
      (ground arith) exact
FaceStep-exact {s} {s'} (FaceStep.sync now item state attempt_count code detected usable le is e)
      exact =
    sync_face_analysis-exact now item state attempt_count code detected usable s s' le is e exact
FaceStep-exact {s} {s'} (FaceStep.exclude now item e) exact =
    update_face_analysis-exact now item _ none 0 0 false s s' refl e exact

-- From exact counts, every sequence of the desktop's commands on the face analyses that succeed leaves
-- exact counts, where those that the server reports to `sync_face_analysis` are exact themselves: no more faces are usable than were detected, and some are usable exactly where an analysis is indexed.
pub FaceSteps-exact : (s s' : Store) → FaceSteps s s' → FaceCountsExact s → FaceCountsExact s'
FaceSteps-exact s s' FaceSteps.done exact = exact
FaceSteps-exact s s' (FaceSteps.next {t = t} step steps) exact =
    FaceSteps-exact t s' steps (FaceStep-exact step exact)
