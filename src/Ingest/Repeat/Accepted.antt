-- ===== src/Ingest/Repeat/Accepted.antt =====
-- The whole reservation, accepted and then asked for again.
use openfotos_platform.Prelude.{
  ap, ◌∙◌, Result-cases, ◌∙◌, ℕ, ◌≡◌, some, Text, ok, arith, ◌==◌, find, inl, inr, Option-cases,
}
use openfotos_platform.Models.{
  SubEvent, Event, DesktopSession, EventInstallation, ContributionBatch, Db,
}
use openfotos_platform.Platform.{Platform}
use openfotos_platform.Ingest.Rows.{event_for_session}
use openfotos_platform.Devices.{register_event_installation}
use openfotos_platform.Ingest.Reserve.{
  Contribution, Call, is_active_sub_event, place_contribution, reserve_contribution,
  canonical_document,
}
use openfotos_platform.Ingest.Repeat.{
  IsPlaced, event_for_session-SameScope, IsRegistered-SameScope, register-IsRegistered,
  register-again, SameScope-trans, place_new, place_old, place_again,
}

module _ (p : Platform) where
  -- The digest of a contribution, by which a repetition is recognised.
  abbrev sha_of : Contribution → Text
  sha_of c = p.contribution_sha256 (canonical_document c)

  -- The steps of an accepted reservation.
  record Steps (s : DesktopSession) (event_id : ℕ) (c : Contribution) (call : Call)
      (before after : Db) (b : ContributionBatch) : Type 0 where
    pub event : Event
    pub installation : EventInstallation
    pub db : Db
    pub sub_event : SubEvent
    pub found : event_for_session s event_id before ≡ ok event
    pub registered :
        register_event_installation p s c.device_label call.installation_id before
        ≡ ok (installation, db)
    pub active : find (is_active_sub_event c.sub_event_id) db.sub_events ≡ some sub_event
    pub placed :
        place_contribution p s call c installation sub_event.id
          (sha_of c)
          (find (λ r. r.id == c.batch_id) db.batches)
          db
        ≡ ok (b, after)

  reserve-Steps :
      (s : DesktopSession) (event_id : ℕ) (c : Contribution) (call : Call) (before after : Db)
      (b : ContributionBatch)
      → reserve_contribution p s event_id c call before ≡ ok (b, after)
      → Steps s event_id c call before after b
  unfolding reserve_contribution
  reserve-Steps s event_id c call before after b e =
      let registration =
        register_event_installation p s c.device_label call.installation_id before in
      elim (Result-cases (event_for_session s event_id before)) [
        | inr (code, refused) ↦ ground (arith, refused)
        | inl (event, found) ↦ elim (Result-cases registration) [
          | inr (code, refused) ↦ ground (arith, found, refused)
          | inl ((i, db), registered) ↦
              elim (Option-cases (find (is_active_sub_event c.sub_event_id) db.sub_events)) [
                | inl refused ↦ ground (arith, found, registered, refused)
                | inr (sub, active) ↦ record {
                  event = event;
                  installation = i;
                  db = db;
                  sub_event = sub;
                  found = found;
                  registered = registered;
                  active = active;
                  placed = ground (arith, found, registered, active);
                }
              ]
        ]
      ]

  place_contribution-IsPlaced :
      (s : DesktopSession) (call : Call) (c : Contribution) (i : EventInstallation) (sub : ℕ)
      (sha : Text) (b : ContributionBatch) (db db' : Db)
      → place_contribution p s call c i sub sha (find (λ r. r.id == c.batch_id) db.batches) db
        ≡ ok (b, db')
      → IsPlaced p c i sub sha b db db'
  place_contribution-IsPlaced s call c i sub sha b db db' e =
      elim (Option-cases (find (λ r. r.id == c.batch_id) db.batches)) [
        | inl absent ↦ place_new p s call c i sub sha b db db' absent (ground (arith, absent))
        | inr (old, present) ↦
            place_old p s call c i sub sha old b db db' present (ground (arith, present))
      ]

  reserve_from_steps :
      (s : DesktopSession) (event_id : ℕ) (c : Contribution) (call : Call) (db : Db)
      (b : ContributionBatch) (e : Event) (i : EventInstallation) (sub : SubEvent)
      → event_for_session s event_id db ≡ ok e
      → register_event_installation p s c.device_label call.installation_id db ≡ ok (i, db)
      → find (is_active_sub_event c.sub_event_id) db.sub_events ≡ some sub
      → place_contribution p s call c i sub.id
          (sha_of c)
          (find (λ r. r.id == c.batch_id) db.batches)
          db
        ≡ ok (b, db)
      → reserve_contribution p s event_id c call db ≡ ok (b, db)
  unfolding reserve_contribution
  reserve_from_steps s event_id c call db b e i sub found registered active placed =
      ground (arith, found, registered, active, placed)

  -- A contribution that was accepted and is sent again by the same session, in the database that the
  -- acceptance left, is answered with the same batch, and nothing is written.
  pub reserve_contribution-repeats :
      (s : DesktopSession) (event_id : ℕ) (c : Contribution) (call again : Call) (db db' : Db)
      (b : ContributionBatch)
      → reserve_contribution p s event_id c call db ≡ ok (b, db')
      → reserve_contribution p s event_id c again db' ≡ ok (b, db')
  reserve_contribution-repeats s event_id c call again before after b e =
      let steps = reserve-Steps s event_id c call before after b e in
      let i = steps.installation in
      let (known, scope1, batches) =
        register-IsRegistered p s c.device_label call.installation_id before steps.db i
          steps.registered in
      let x =
        place_contribution-IsPlaced s call c i steps.sub_event.id (sha_of c) b steps.db after
          steps.placed in
      let scope = SameScope-trans p before steps.db after scope1 x.scope in
      reserve_from_steps s event_id c again after b after.event i steps.sub_event
        (event_for_session-SameScope s event_id before after steps.event scope steps.found)
        (register-again p s c.device_label again.installation_id after i
          (IsRegistered-SameScope s i steps.db after x.scope x.installations known))
        (ap (find (is_active_sub_event c.sub_event_id)) x.scope.same_sub_events ∙ steps.active)
        (place_again p s again c i steps.sub_event.id (sha_of c) b steps.db after x)
