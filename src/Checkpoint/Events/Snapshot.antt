-- ===== src/Checkpoint/Events/Snapshot.antt =====
-- The cache of an event against the snapshot that it was given.
use openfotos_platform.Prelude.{
  any-update, any_split, ◌≢◌, any_never, any_self, ℕ, ◌≡◌, ◌∙◌, refl, Bool, true, false, not, ◌&&◌,
  List, [], ◌∷◌, Text, ok, err, ◌=ᵗ◌, ◌==◌, any, update, arith, length, >>=-eq-ok, Result-cases,
  inl, inr, any-update-false, any-append, any_mono, =ᵗ_refl,
}
use openfotos_platform.Checkpoint.{EventCache, SubEventCache, SubEventRow, Store, StoreError, Host}
use openfotos_platform.Checkpoint.Events.{
  cache_event, get_event, upsert_sub_event, upsert_sub_events,
}
use openfotos_platform.Checkpoint.Batches.{create_batch, is_active_sub_event}

-- Is the row one of the sub-events?
abbrev pub is_listed : List SubEventCache → SubEventRow → Bool
is_listed cs r = any (λ c. c.id == r.id && (c.name =ᵗ r.name && c.position == r.position)) cs

-- An active row of the event that the snapshot does not hold.
abbrev pub is_stale : (event : ℕ) → List SubEventCache → SubEventRow → Bool
is_stale event cs r = r.event == event && (r.is_active && not (is_listed cs r))

abbrev cached_row : (event : ℕ) → SubEventCache → SubEventRow
cached_row event c = record {
  id = c.id;
  event = event;
  name = c.name;
  position = c.position;
  is_active = true;
}

upsert_sub_event-fresh :
    (event : ℕ) (cs : List SubEventCache) (c : SubEventCache) (rows rows' : List SubEventRow)
    → is_listed cs (cached_row event c) ≡ true
    → any (is_stale event cs) rows ≡ false
    → upsert_sub_event event c rows ≡ ok rows'
    → any (is_stale event cs) rows' ≡ false
unfolding upsert_sub_event any
upsert_sub_event-fresh event cs c rows rows' listed fresh e = ground (
  arith,
  any-append (is_stale event cs) rows (cached_row event c ∷ []),
  any-update-false (is_stale event cs) (is_stale event cs) (λ r. r.id == c.id)
      (λ r. cached_row event c) (λ r at. ground arith) (λ r other before. before) rows fresh,
)

upsert_sub_events-fresh :
    (event : ℕ) (cs part : List SubEventCache) (rows rows' : List SubEventRow)
    → any (λ c. not (is_listed cs (cached_row event c))) part ≡ false
    → any (is_stale event cs) rows ≡ false
    → upsert_sub_events event part rows ≡ ok rows'
    → any (is_stale event cs) rows' ≡ false
unfolding upsert_sub_events any
upsert_sub_events-fresh event cs [] rows rows' listed fresh e = ground (arith, fresh)
upsert_sub_events-fresh event cs (c ∷ part) rows rows' listed fresh e =
    let (saved, es, rest) = >>=-eq-ok (upsert_sub_event event c rows) _ e in
    upsert_sub_events-fresh event cs part saved rows' (ground arith)
      (upsert_sub_event-fresh event cs c rows saved (ground arith) fresh es) rest

-- A list holds its own sub-events.
all_listed :
    (event : ℕ) (cs : List SubEventCache)
    → any (λ c. not (is_listed cs (cached_row event c))) cs ≡ false
all_listed event cs =
    any_self (λ c d. d.id == c.id && (d.name =ᵗ c.name && d.position == c.position))
      (λ c. ground (arith, =ᵗ_refl c.name)) cs

-- The event's rows before the snapshot's are put in: none is active.
abbrev deactivate : (event : ℕ) → List SubEventRow → List SubEventRow
deactivate event rows = update (λ r. r.event == event) (λ r. record r { is_active = false }) rows

deactivated :
    (event : ℕ) (cs : List SubEventCache) (rows : List SubEventRow)
    → any
        (is_stale event cs)
        (update (λ r. r.event == event) (λ r. record r { is_active = false }) rows)
      ≡ false
deactivated event cs rows =
    any-update-false (is_stale event cs) (λ r. false) (λ r. r.event == event)
      (λ r. record r { is_active = false }) (λ r at. ground arith) (λ r other before. ground arith)
      rows (any_never rows)

cache_event-fresh :
    (h : Host) (e : EventCache) (s s' : Store)
    → cache_event h e s ≡ ok s'
    → any (is_stale e.id e.sub_events) s'.sub_events ≡ false
unfolding cache_event
cache_event-fresh h e s s' cached =
    elim (Result-cases (upsert_sub_events e.id e.sub_events (deactivate e.id s.sub_events))) [
      | inl (saved, es) ↦
          let same : s'.sub_events ≡ saved = ground arith in
          rw same (
            upsert_sub_events-fresh e.id e.sub_events e.sub_events (deactivate e.id s.sub_events)
              saved (all_listed e.id e.sub_events) (deactivated e.id e.sub_events s.sub_events) es)
      | inr (c, es) ↦ absurd (ground arith)
    ]

-- After an event is cached, a contribution can be created only for a sub-event of the snapshot:
-- one that was archived, or that was never there, is refused.
pub cache_event-create_batch :
    (h : Host) (e : EventCache) (s s' : Store) (now fresh sub_event : ℕ) (label : Text)
    (answer : ℕ × Store)
    → cache_event h e s ≡ ok s'
    → create_batch h now fresh e.id sub_event label s' ≡ ok answer
    → any (λ c. c.id == sub_event) e.sub_events ≡ true
unfolding create_batch get_event
cache_event-create_batch h e s s' now fresh sub_event label answer cached created =
    let active : is_active_sub_event e.id sub_event s' ≡ true = ground arith in
    (let (r, at, not_stale) =
        any_split (λ q. q.id == sub_event && (q.event == e.id && q.is_active))
          (is_stale e.id e.sub_events) s'.sub_events active (cache_event-fresh h e s s' cached) in
      any_mono (λ c. c.id == r.id && (c.name =ᵗ r.name && c.position == r.position))
        (λ c. c.id == sub_event) (λ c b. ground arith) e.sub_events (ground arith))

-- A snapshot whose first sub-event takes the name of another row of the event cannot be cached, even if
-- the snapshot gives that row another name: the call raises, and nothing of the snapshot is kept.
pub cache_event-name_conflict :
    (h : Host) (e : EventCache) (c : SubEventCache) (cs : List SubEventCache) (s : Store)
    → e.sub_events ≡ c ∷ cs
    → length (h.strip e.name) ≢ 0
    → length (h.strip e.processing_profile_id) ≢ 0
    → length (h.strip e.face_model_id) ≢ 0
    → any (λ r. not (r.id == c.id) && (r.event == e.id && r.name =ᵗ c.name)) s.sub_events ≡ true
    → cache_event h e s ≡ err StoreError.integrity_error
unfolding cache_event upsert_sub_events upsert_sub_event
cache_event-name_conflict h e c cs s es name profile model held =
    let after : any (λ r. not (r.id == c.id) && (r.event == e.id && r.name =ᵗ c.name))
          (deactivate e.id s.sub_events)
        ≡ true =
      any-update (λ r. not (r.id == c.id) && (r.event == e.id && r.name =ᵗ c.name))
        (λ r. r.event == e.id) (λ r. record r { is_active = false }) (λ r. refl) s.sub_events
      ∙ held in
    rw es (ground (arith, after))
