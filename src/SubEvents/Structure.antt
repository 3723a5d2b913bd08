-- ===== src/SubEvents/Structure.antt =====
-- The structure of an event, through any sequence of the commands that change it.
use openfotos_platform.Prelude.{
  find-any, find, Option-cases, leb, raise_if, ℕ, ◌≡◌, ◌≤◌, Bool, true, false, not, ◌&&◌, ◌||◌,
  none, some, List, [], ◌∷◌, ◌++◌, Text, ok, ◌==◌, ◌=ᵗ◌, any, update, length, arith, Bool-cases,
  inl, inr, >>=-eq-ok, any-append, any_none, any-or_none, any-update-false, length-update,
  length-append,
}
use openfotos_platform.Models.{Code, Db, SubEvent, save_event}
use openfotos_platform.SubEvents.{
  Naming, create_sub_event, update_sub_event, archive_rows, require_editable, get_sub_event,
  normalized_name, require_unique_name, validated_position, max_sub_events, same_flag,
  is_excluded_id,
}

module _ (p : Naming) where
  open p use {same_name}

  abbrev pub clash : SubEvent → SubEvent → Bool
  clash r q = same_name r.name q.name && not (r.id == q.id)

  -- Do two sub-events have one name?
  abbrev pub names_clash : List SubEvent → Bool
  names_clash rows = any (λ r. any (clash r) rows) rows

  -- At most fifty sub-events, and no two of one name.
  abbrev pub StructureValid : Db → Type 0
  StructureValid db = (names_clash db.sub_events ≡ false) × (length db.sub_events ≤ max_sub_events)

  -- A command on the structure that succeeds.
  pub data StructureStep : Db → Db → Type 0 where
    create :
        {db db' : Db} (name : Text) (position fresh : ℕ) (row : SubEvent)
        → create_sub_event p name position fresh db ≡ ok (row, db')
        → StructureStep db db'
    change :
        {db db' : Db} (sub_event : ℕ) (name : Text) (position : ℕ) (row : SubEvent)
        → update_sub_event p sub_event name position db ≡ ok (row, db')
        → StructureStep db db'
    archive :
        {db db' : Db} (now sub_event : ℕ) (archived : Bool) (answer : SubEvent × Bool)
        → archive_rows now sub_event archived db ≡ ok (answer, db')
        → StructureStep db db'

  pub data StructureSteps : Db → Db → Type 0 where
    done : {db : Db} → StructureSteps db db
    next : {a b c : Db} → StructureStep a b → StructureSteps b c → StructureSteps a c

module _ (p : Naming)
    (symmetric : (s t : Text) → p.same_name s t ≡ true → p.same_name t s ≡ true) where
  open p use {same_name}

  clash_sym : (r q : SubEvent) → clash p r q ≡ true → clash p q r ≡ true
  clash_sym r q e = ground (arith, symmetric r.name q.name)

  -- No row holds the name of this one, but a row of the same id.
  abbrev IsFree : SubEvent → List SubEvent → Type 0
  IsFree x rows = any (λ r. clash p r x) rows ≡ false

  append-names_clash :
      (x : SubEvent) (rows : List SubEvent)
      → IsFree x rows
      → names_clash p rows ≡ false
      → names_clash p (rows ++ x ∷ []) ≡ false
  unfolding any
  append-names_clash x rows free before =
      let old =
        any_none (λ r. any (clash p r) (rows ++ x ∷ [])) (λ r. any (clash p r) rows || clash p r x)
          (λ r h. ground (arith, any-append (clash p r) rows (x ∷ []))) rows
          (any-or_none (λ r. any (clash p r) rows) (λ r. clash p r x) rows before free) in
      let new = any_none (clash p x) (λ r. clash p r x) (λ r. clash_sym x r) rows free in
      ground (
        arith,
        any-append (λ r. any (clash p r) (rows ++ x ∷ [])) rows (x ∷ []),
        any-append (clash p x) rows (x ∷ []),
        old,
        new,
      )

  update-names_clash :
      (x : SubEvent) (rows : List SubEvent)
      → IsFree x rows
      → names_clash p rows ≡ false
      → names_clash p (update (λ r. r.id == x.id) (λ r. x) rows) ≡ false
  update-names_clash x rows free before =
      any-update-false _ (λ r. any (clash p r) rows || clash p r x) (λ r. r.id == x.id) (λ r. x)
        (λ r at.
          any-update-false (clash p x) (λ q. clash p q x) (λ r. r.id == x.id) (λ r. x)
            (λ q at'. ground arith) (λ q other h. ground (arith, clash_sym x q)) rows free)
        (λ r other h.
          any-update-false (clash p r) (clash p r) (λ r. r.id == x.id) (λ r. x)
            (λ q at'. ground arith) (λ q other' h'. h') rows (ground arith))
        rows (any-or_none (λ r. any (clash p r) rows) (λ r. clash p r x) rows before free)

  create-valid :
      (name : Text) (position fresh : ℕ) (row : SubEvent) (db db' : Db)
      → create_sub_event p name position fresh db ≡ ok (row, db')
      → StructureValid p db
      → StructureValid p db'
  unfolding create_sub_event require_unique_name
  create-valid name position fresh row db db' e (names, count) =
      let (u, eu, e1) = >>=-eq-ok (require_editable db) _ e in
      let (v, ev, e2) =
        >>=-eq-ok (raise_if (leb max_sub_events (length db.sub_events)) Code.sub_event_limit) _
          e1 in
      let (normalized, en, e3) = >>=-eq-ok (normalized_name p name) _ e2 in
      let (w, ew, e4) = >>=-eq-ok (require_unique_name p normalized none db.sub_events) _ e3 in
      let (valid, ep, e5) = >>=-eq-ok (validated_position position) _ e4 in
      (let x : SubEvent = record {
        id = fresh;
        name = normalized;
        position = valid;
        is_archived = false;
      } in
        let rows : db'.sub_events ≡ db.sub_events ++ x ∷ [] = ground (arith, e5) in
        let free : IsFree x db.sub_events =
          any_none (λ r. clash p r x)
            (λ r. same_name r.name normalized && not (is_excluded_id none r.id))
            (λ r h. ground arith) db.sub_events (ground (arith, ew)) in
        rw rows (
          append-names_clash x db.sub_events free names,
          ground (arith, length-append db.sub_events (x ∷ [])),
        ))

  update-valid :
      (sub_event : ℕ) (name : Text) (position : ℕ) (row : SubEvent) (db db' : Db)
      → update_sub_event p sub_event name position db ≡ ok (row, db')
      → StructureValid p db
      → StructureValid p db'
  unfolding update_sub_event require_unique_name
  update-valid sub_event name position row db db' e (names, count) =
      let (u, eu, e1) = >>=-eq-ok (require_editable db) _ e in
      let (locked, el, e2) = >>=-eq-ok (get_sub_event sub_event db) _ e1 in
      let (normalized, en, e3) = >>=-eq-ok (normalized_name p name) _ e2 in
      let (valid, ep, e4) = >>=-eq-ok (validated_position position) _ e3 in
      let (w, ew, e5) =
        >>=-eq-ok (require_unique_name p normalized (some locked.id) db.sub_events) _ e4 in
      let x : SubEvent = record locked { name = normalized; position = valid } in
      let free : IsFree x db.sub_events =
        any_none (λ r. clash p r x)
          (λ r. same_name r.name normalized && not (is_excluded_id (some locked.id) r.id))
          (λ r h. ground arith) db.sub_events (ground (arith, ew)) in
      let changed = update-names_clash x db.sub_events free names in
      let counted = length-update (λ r. r.id == x.id) (λ r. x) db.sub_events in
      elim (Bool-cases (locked.name =ᵗ normalized && locked.position == valid)) [
        | inl same ↦ (let kept : db' ≡ db = ground (arith, e5) in rw kept (names, count))
        | inr other ↦
            (let rows : db'.sub_events ≡ update (λ r. r.id == x.id) (λ r. x) db.sub_events =
                ground (arith, e5) in
              rw rows (changed, ground (arith, counted)))
      ]

  get_sub_event-IsFree :
      (sub_event : ℕ) (db : Db) (locked : SubEvent)
      → get_sub_event sub_event db ≡ ok locked
      → names_clash p db.sub_events ≡ false
      → IsFree locked db.sub_events
  unfolding get_sub_event
  get_sub_event-IsFree sub_event db locked e names =
      elim (Option-cases (find (λ r. r.id == sub_event) db.sub_events)) [
        | inl f ↦ absurd (ground arith)
        | inr (x, f) ↦
            let same : x ≡ locked = ground arith in
            any_none (λ r. clash p r locked) (λ r. any (clash p r) db.sub_events)
              (λ r h. find-any (λ q. q.id == sub_event) (clash p r) db.sub_events x f (rw same h))
              db.sub_events names
      ]

  archive-valid :
      (now sub_event : ℕ) (archived : Bool) (answer : SubEvent × Bool) (db db' : Db)
      → archive_rows now sub_event archived db ≡ ok (answer, db')
      → StructureValid p db
      → StructureValid p db'
  unfolding archive_rows save_event
  archive-valid now sub_event archived answer db db' e (names, count) =
      let (u, eu, e1) = >>=-eq-ok (require_editable db) _ e in
      let (locked, el, e2) = >>=-eq-ok (get_sub_event sub_event db) _ e1 in
      let x : SubEvent = record locked { is_archived = archived } in
      let changed =
        update-names_clash x db.sub_events (get_sub_event-IsFree sub_event db locked el names)
          names in
      let counted = length-update (λ r. r.id == x.id) (λ r. x) db.sub_events in
      elim (Bool-cases (same_flag locked.is_archived archived)) [
        | inl same ↦ (let kept : db' ≡ db = ground (arith, e2) in rw kept (names, count))
        | inr other ↦
            (let rows : db'.sub_events ≡ update (λ r. r.id == x.id) (λ r. x) db.sub_events =
                ground (arith, e2) in
              rw rows (changed, ground (arith, counted)))
      ]

  StructureStep-valid :
      {db db' : Db} → StructureStep p db db' → StructureValid p db → StructureValid p db'
  StructureStep-valid {db} {db'} (StructureStep.create name position fresh row e) v =
      create-valid name position fresh row db db' e v
  StructureStep-valid {db} {db'} (StructureStep.change sub_event name position row e) v =
      update-valid sub_event name position row db db' e v
  StructureStep-valid {db} {db'} (StructureStep.archive now sub_event archived answer e) v =
      archive-valid now sub_event archived answer db db' e v

  -- Where sameness of names is symmetric, every sequence of creations, changes, archivals and
  -- restorations keeps at most fifty sub-events, no two of them with the same name.
  pub StructureSteps-valid :
      (db db' : Db) → StructureSteps p db db' → StructureValid p db → StructureValid p db'
  StructureSteps-valid db db' StructureSteps.done v = v
  StructureSteps-valid db db' (StructureSteps.next {b = b} step steps) v =
      StructureSteps-valid b db' steps (StructureStep-valid step v)
