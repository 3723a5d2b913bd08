-- ===== src/Derivatives/Readiness.antt =====
-- What a refresh of the gallery's readiness writes.
use openfotos_platform.Prelude.{
  Bool-cases, inl, inr, ℕ, ◌≡◌, refl, Bool, true, false, not, ◌&&◌, Option, none, some, ok, ◌==◌,
  length, arith, if◌then◌else◌, ◌*◌,
}
use openfotos_platform.States.{EventState, ◌=ˢ◌}
use openfotos_platform.Lifecycle.{state_for_derivative_readiness}
use openfotos_platform.Models.{record_audit, AuditEntry, Db}
use openfotos_platform.Ingest.Counters.{IsExact, CountersExact, save_event-exact}
use openfotos_platform.Derivatives.{
  manifest_is_current, shown_assets, verified_pairs, settle_readiness, refresh_derivative_readiness,
}

-- A gallery is complete when the current manifest is committed, it shows something, and there are
-- two verified derivatives for each photo that it shows.
abbrev pub is_complete : Db → Bool
is_complete db =
    manifest_is_current db
    && (not (length (shown_assets db) == 0) && verified_pairs db == length (shown_assets db) * 2)

-- The event's readiness afterwards.
abbrev pub readiness_after : Db → Option ℕ
readiness_after db =
    if is_complete db
    then some db.event.intake_generation
    else if manifest_is_current db
    then none
    else db.event.derivatives_ready_generation

-- Only a settled readiness moves the event, between Processing and Review.
abbrev pub state_after : Db → EventState
state_after db =
    if manifest_is_current db && not (length (shown_assets db) == 0)
    then state_for_derivative_readiness db.event.state (is_complete db)
    else db.event.state

abbrev pub Refreshed : Db → Db → Type 0
Refreshed db db' =
    (db'.event.derivatives_ready_generation ≡ readiness_after db)
    × (db'.event.state ≡ state_after db)
    × CountersExact db'

readiness-IsExact :
    (ready : Bool) (generation : Option ℕ) (db : Db)
    → CountersExact db
    → IsExact
        (record db.event {
          derivatives_ready_generation = generation;
          state = state_for_derivative_readiness db.event.state ready;
        })
        db.objects
unfolding state_for_derivative_readiness
readiness-IsExact ready generation db x = ground arith

settle_readiness-exact :
    (now : ℕ) (ready : Bool) (generation : Option ℕ) (db : Db)
    → CountersExact db
    → (db' : Db) × (settle_readiness now ready generation db ≡ ok (ready, db'))
      × (db'.event.derivatives_ready_generation ≡ generation)
      × (db'.event.state ≡ state_for_derivative_readiness db.event.state ready)
      × CountersExact db'
settle_readiness-exact now ready generation db x =
    let next = state_for_derivative_readiness db.event.state ready in
    let (saved, e, y, rows, event) =
      save_event-exact now
        (record db.event { derivatives_ready_generation = generation; state = next }) db
        (readiness-IsExact ready generation db x) in
    elim (Bool-cases (next =ˢ db.event.state)) [
      | inl same ↦ (saved, rw (e, same) refl, rw event refl, rw event refl, y)
      | inr other ↦ (
        record_audit (AuditEntry.automatic_state_change db.event.state next) saved,
        rw (e, other) refl,
        rw event refl,
        rw event refl,
        y,
      )
    ]

-- With exact totals a refresh never raises: it answers whether the gallery is complete, records the
-- readiness and the state that follow from that, and keeps the totals exact.
pub refresh-answers :
    (now : ℕ) (db : Db)
    → CountersExact db
    → (db' : Db) × (refresh_derivative_readiness now db ≡ ok (is_complete db, db'))
      × Refreshed db db'
unfolding refresh_derivative_readiness
refresh-answers now db x = elim (Bool-cases (manifest_is_current db)) [
  | inr stale ↦ (db, rw stale refl, (rw stale refl, rw stale refl, x))
  | inl current ↦ elim (Bool-cases (length (shown_assets db) == 0)) [
    | inl nothing ↦
        let (saved, e, y, rows, event) =
          save_event-exact now (record db.event { derivatives_ready_generation = none }) db
            (ground arith) in
        (
          saved,
          rw (current, nothing, e) refl,
          (rw (current, nothing, event) refl, rw (current, nothing, event) refl, y),
        )
    | inr something ↦ elim (Bool-cases (verified_pairs db == length (shown_assets db) * 2)) [
      | inl full ↦
          let (db', e, g, s, y) =
            settle_readiness-exact now true (some db.event.intake_generation) db x in
          (
            db',
            rw (current, something, full, e) refl,
            (rw (current, something, full) g, rw (current, something, full) s, y),
          )
      | inr lacking ↦
          let (db', e, g, s, y) = settle_readiness-exact now false none db x in
          (
            db',
            rw (current, something, lacking, e) refl,
            (rw (current, something, lacking) g, rw (current, something, lacking) s, y),
          )
    ]
  ]
]
