-- ===== src/Transitions/Checked.antt =====
-- What an accepted transition says of the event.
use openfotos_platform.Prelude.{
  if_ind, Option-cases, Option, ◌⊎◌, ℕ, ◌≡◌, ◌≢◌, true, some, ok, err, arith, Bool-cases,
  Result-cases, inl, inr, Result,
}
use openfotos_platform.States.{EventState, IngestionManifestState, ◌=ˢ◌, =ˢ_sound}
use openfotos_platform.Lifecycle.{Violation, state_for_manual_transition}
use openfotos_platform.Lifecycle.Publication.{
  IsPublishable, manual_transition-in_table, publish-iff-IsPublishable,
}
use openfotos_platform.Models.{save_event, Code, Event, IngestionManifest, Db, is_set}
use openfotos_platform.Ingest.Counters.{
  bind-Settles, IsExact, CountersExact, save_event-exact, Settles,
}
use openfotos_platform.Ingest.Publish.{current_manifest}
use openfotos_platform.Ingest.Status.{has_policy, has_active_sub_event}
use openfotos_platform.Ingest.Reserve.{as_code}
use openfotos_platform.Transitions.{
  transition_facts, moved_event, save_transition, transition_event, is_future,
}

-- A gallery that may be public.
pub record IsReadyGallery (now : ℕ) (db : Db) : Type 0 where
  pub manifest : IngestionManifest
  pub current : current_manifest db ≡ some manifest
  pub committed : manifest.state ≡ IngestionManifestState.committed
  pub generation : manifest.generation ≡ db.event.intake_generation
  pub derivatives : db.event.derivatives_ready_generation ≡ some db.event.intake_generation
  pub faces : db.event.face_index_ready_generation ≡ some db.event.intake_generation
  pub future : is_future now db.event.expires_at ≡ true
  pub policy : has_policy db ≡ true
  pub sub_event : has_active_sub_event db ≡ true

publishable-IsReadyGallery :
    (now : ℕ) (db : Db)
    → IsPublishable (transition_facts now EventState.published db)
    → IsReadyGallery now db
unfolding transition_facts
publishable-IsReadyGallery now db x = elim (Option-cases (current_manifest db)) [
  | inl absent ↦ ground (arith, x.committed, absent)
  | inr (m, present) ↦ record {
    manifest = m;
    current = present;
    committed = ground (arith, x.committed, present);
    generation = ground (arith, x.generation, present);
    derivatives = x.derivatives;
    faces = x.faces;
    future = x.expiry;
    policy = x.policy;
    sub_event = x.sub_event;
  }
]

published_source :
    (now fresh : ℕ) (db db' : Db) (e : Event)
    → db.event.state ≢ EventState.published
    → transition_event now EventState.published fresh db ≡ ok (e, db')
    → state_for_manual_transition db.event.state EventState.published
        (transition_facts now EventState.published db)
      ≡ ok EventState.published
unfolding transition_event
published_source now fresh db db' e h r =
    let facts = transition_facts now EventState.published db in
    elim (Result-cases (state_for_manual_transition db.event.state EventState.published facts)) [
      | inl (s, decided) ↦
          let (same, allowed) =
            manual_transition-in_table db.event.state EventState.published s facts decided in
          ground (arith, decided, same)
      | inr (v, refused) ↦ ground (arith, refused, =ˢ_sound EventState.published db.event.state)
    ]

-- What a transition into Published leaves is a ready gallery where the event was one before.
published_row :
    (now fresh : ℕ) (db db' : Db) (e : Event)
    → state_for_manual_transition db.event.state EventState.published
        (transition_facts now EventState.published db)
      ≡ ok EventState.published
    → db.event.state ≢ EventState.published
    → transition_event now EventState.published fresh db ≡ ok (e, db')
    → IsReadyGallery now db
    → (db'.event.state ≡ EventState.published) × IsReadyGallery now db'
unfolding transition_event save_event current_manifest
published_row now fresh db db' e decided h r x = (
  ground (arith, decided),
  record {
    manifest = x.manifest;
    current = ground (arith, decided, x.current);
    committed = x.committed;
    generation = ground (arith, decided, x.generation);
    derivatives = ground (arith, decided, x.derivatives);
    faces = ground (arith, decided, x.faces);
    future = ground (arith, decided, x.future);
    policy = ground (arith, decided, x.policy);
    sub_event = ground (arith, decided, x.sub_event);
  },
)

-- A transition that an unpublished event makes into Published comes from Review or Archived. The event
-- is Published afterwards, and it then has a committed manifest of its generation, derivatives and faces of that generation, an
-- expiry in the future, a preview policy and an active sub-event.
pub transition_event-publishes_ready :
    (now fresh : ℕ) (db db' : Db) (e : Event)
    → db.event.state ≢ EventState.published
    → transition_event now EventState.published fresh db ≡ ok (e, db')
    → ((db.event.state ≡ EventState.review) ⊎ (db.event.state ≡ EventState.archived))
      × (db'.event.state ≡ EventState.published)
      × IsReadyGallery now db'
transition_event-publishes_ready now fresh db db' e h r =
    let decided = published_source now fresh db db' e h r in
    let (source, x) =
      (publish-iff-IsPublishable db.event.state (transition_facts now EventState.published db) h).0
        decided in
    let (published, ready) =
      published_row now fresh db db' e decided h r (publishable-IsReadyGallery now db x) in
    (source, published, ready)

has_expiry : (now : ℕ) (expiry : Option ℕ) → is_future now expiry ≡ true → is_set expiry ≡ true
has_expiry now expiry h = ground arith

into_published :
    (now : ℕ) (db : Db)
    → CountersExact db
    → state_for_manual_transition db.event.state EventState.published
        (transition_facts now EventState.published db)
      ≡ ok EventState.published
    → is_set db.event.expires_at ≡ true
into_published now db x h = elim (Bool-cases (db.event.state =ˢ EventState.published)) [
  | inl already ↦ ground (arith, x.expiry, already)
  | inr other ↦
      let (source, ready) =
        (publish-iff-IsPublishable db.event.state (transition_facts now EventState.published db)
            (λ e. ground (arith, other, e))).0
          h in
      has_expiry now db.event.expires_at (publishable-IsReadyGallery now db ready).future
]

moved-IsExact :
    (now : ℕ) (target : EventState) (fresh : ℕ) (db : Db) (next : EventState)
    → CountersExact db
    → state_for_manual_transition db.event.state target (transition_facts now target db) ≡ ok next
    → IsExact (moved_event db.event.state target fresh next db.event) db.objects
moved-IsExact now target fresh db next x h =
    let (same, allowed) =
      manual_transition-in_table db.event.state target next (transition_facts now target db) h in
    elim (Bool-cases (target =ˢ EventState.published)) [
      | inr other ↦ ground (arith, same, other)
      | inl published ↦
          let is = =ˢ_sound target EventState.published published in
          let expiry = into_published now db x (ground (arith, h, same, is)) in
          ground (arith, same, is, expiry)
    ]

as_code-unconstrained : (r : Result Violation EventState) → as_code r ≢ err Code.integrity_error
as_code-unconstrained (ok s) e = cc
as_code-unconstrained (err v) e = ground arith

as_code-ok : (r : Result Violation EventState) (s : EventState) → as_code r ≡ ok s → r ≡ ok s
as_code-ok r s e = ground arith

save_transition-Settles :
    (now : ℕ) (target : EventState) (fresh : ℕ) (db : Db) (next : EventState)
    → IsExact (moved_event db.event.state target fresh next db.event) db.objects
    → Settles (save_transition now target fresh db next)
save_transition-Settles now target fresh db next x =
    let (saved, e, y, rows, event) =
      save_event-exact now (moved_event db.event.state target fresh next db.event) db x in
    rw e y

-- From exact totals, a transition that is accepted leaves exact totals, and none is refused by a check
-- constraint of the database.
pub transition_event-Settles :
    (now : ℕ) (target : EventState) (fresh : ℕ) (db : Db)
    → CountersExact db
    → Settles (transition_event now target fresh db)
unfolding transition_event
transition_event-Settles now target fresh db x =
    let decision =
      state_for_manual_transition db.event.state target (transition_facts now target db) in
    if_ind Settles (target =ˢ db.event.state) (λ _. x)
      (λ _. bind-Settles (as_code decision) _ (as_code-unconstrained decision) λ next e.
        if_ind Settles (next =ˢ db.event.state) (λ _. x)
          (λ _.
            save_transition-Settles now target fresh db next
              (moved-IsExact now target fresh db next x (as_code-ok decision next e))))
