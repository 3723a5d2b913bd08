-- ===== src/Ingest/Repeat.antt =====
-- A contribution that a desktop sends again, because it did not see the answer.
pub mod Accepted
use openfotos_platform.States.{EventState}
use openfotos_platform.Prelude.{
  Result-cases, ◌∙◌, =ᵗ_sound, find-append, ℕ, ◌≡◌, refl, true, false, none, some, List, [], ◌∷◌,
  ◌++◌, Text, ok, err, arith, ◌==◌, find, inl, inr, ◌⊎◌, Option-cases, =ᵗ_refl, ==_refl, Bool,
  Result,
}
use openfotos_platform.Models.{
  SubEvent, Event, DesktopSession, EventInstallation, ContributionBatch, Db, save_event,
}
use openfotos_platform.Platform.{Platform}
use openfotos_platform.Ingest.Rows.{event_for_session, is_active, is_some_of}
use openfotos_platform.Devices.{
  active_membership, register_event_installation, new_installation, known_installation,
}
use openfotos_platform.Ingest.Reserve.{
  new_batch, Contribution, Call, is_active_sub_event, insert_contribution, insert_rows,
  ensure_policy, repeated_contribution, place_contribution, reserve_contribution,
  canonical_document, reservation_checks,
}

-- What the queries of a reservation read is the same in both databases.
pub record SameScope (db db' : Db) : Type 0 where
  pub same_id : db'.event.id ≡ db.event.id
  pub same_photographer : db'.event.photographer ≡ db.event.photographer
  pub same_memberships : db'.memberships ≡ db.memberships
  pub same_sub_events : db'.sub_events ≡ db.sub_events

-- The workstation of a session, registered and active.
pub record IsRegistered (s : DesktopSession) (i : EventInstallation) (db : Db) : Type 0 where
  pub member : active_membership s db ≡ true
  pub photographer : (s.photographer == db.event.photographer) ≡ true
  pub row : find (λ r. r.installation_id == s.installation_id) db.installations ≡ some i
  pub is_live : is_active i.status ≡ true
  pub owner : is_some_of i.user s.user ≡ true

pub event_for_session-SameScope :
    (s : DesktopSession) (event_id : ℕ) (db db' : Db) (e : Event)
    → SameScope db db'
    → event_for_session s event_id db ≡ ok e
    → event_for_session s event_id db' ≡ ok db'.event
unfolding event_for_session
event_for_session-SameScope s event_id db db' e scope found =
    rw (scope.same_id, scope.same_photographer, scope.same_memberships) (ground (arith, found))

pub IsRegistered-SameScope :
    (s : DesktopSession) (i : EventInstallation) (db db' : Db)
    → SameScope db db'
    → db'.installations ≡ db.installations
    → IsRegistered s i db
    → IsRegistered s i db'
unfolding active_membership
IsRegistered-SameScope s i db db' scope same r = record {
  member = rw (scope.same_photographer, scope.same_memberships) r.member;
  photographer = rw scope.same_photographer r.photographer;
  row = rw same r.row;
  is_live = r.is_live;
  owner = r.owner;
}

module _ (p : Platform) where
  pub register-IsRegistered :
      (s : DesktopSession) (label : Text) (fresh : ℕ) (db db' : Db) (i : EventInstallation)
      → register_event_installation p s label fresh db ≡ ok (i, db')
      → IsRegistered s i db' × SameScope db db' × (db'.batches ≡ db.batches)
  unfolding register_event_installation new_installation active_membership
  register-IsRegistered s label fresh db db' i e = ground (
    arith,
    ==_refl s.installation_id,
    ==_refl s.user,
    find-append (λ r. r.installation_id == s.installation_id) db.installations i,
  )

  pub register-again :
      (s : DesktopSession) (label : Text) (fresh : ℕ) (db : Db) (i : EventInstallation)
      → IsRegistered s i db
      → register_event_installation p s label fresh db ≡ ok (i, db)
  unfolding register_event_installation
  register-again s label fresh db i r = ground arith

  insert_rows-keeps :
      (call : Call) (c : Contribution) (i : EventInstallation) (sub : ℕ) (sha : Text)
      (next : EventState) (db db' : Db) (b : ContributionBatch)
      → insert_rows p call c i sub sha next db ≡ ok (b, db')
      → SameScope db db'
        × (db'.installations ≡ db.installations)
        × (db'.batches ≡ db.batches ++ b ∷ [])
        × (b ≡ new_batch p c i sub sha db.event)
  unfolding insert_rows save_event
  insert_rows-keeps call c i sub sha next db db' b e = ground arith

  pub SameScope-trans : (a b c : Db) → SameScope a b → SameScope b c → SameScope a c
  SameScope-trans a b c x y = ground arith

  ensure_policy-SameScope :
      (s : DesktopSession) (call : Call) (db : Db)
      → SameScope db (ensure_policy s call db)
        × ((ensure_policy s call db).installations ≡ db.installations)
        × ((ensure_policy s call db).batches ≡ db.batches)
  ensure_policy-SameScope s call db = ground arith

  -- Where a placed contribution leaves its batch.
  pub record IsPlaced (c : Contribution) (i : EventInstallation) (sub : ℕ) (sha : Text)
      (b : ContributionBatch) (db db' : Db) : Type 0 where
    pub scope : SameScope db db'
    pub installations : db'.installations ≡ db.installations
    pub found : find (λ r. r.id == c.batch_id) db'.batches ≡ some b
    pub by : b.installation ≡ i.id
    pub in_sub_event : b.sub_event ≡ sub
    pub of_manifest : b.manifest_sha256 ≡ sha

  placed_rows :
      (s : DesktopSession) (call : Call) (c : Contribution) (i : EventInstallation) (sub : ℕ)
      (sha : Text) (b : ContributionBatch) (db db' : Db)
      → place_contribution p s call c i sub sha none db ≡ ok (b, db')
      → (next : EventState) × (insert_rows p call c i sub sha next (ensure_policy s call db)
          ≡ ok (b, db'))
  unfolding place_contribution insert_contribution
  placed_rows s call c i sub sha b db db' e = elim (Result-cases (reservation_checks c db)) [
    | inl (next, checked) ↦ (next, ground (arith, checked))
    | inr (code, refused) ↦ (EventState.draft, ground (arith, refused))
  ]

  pub place_new :
      (s : DesktopSession) (call : Call) (c : Contribution) (i : EventInstallation) (sub : ℕ)
      (sha : Text) (b : ContributionBatch) (db db' : Db)
      → find (λ r. r.id == c.batch_id) db.batches ≡ none
      → place_contribution p s call c i sub sha none db ≡ ok (b, db')
      → IsPlaced c i sub sha b db db'
  place_new s call c i sub sha b db db' absent e =
      let (next, e2) = placed_rows s call c i sub sha b db db' e in
      let locked = ensure_policy s call db in
      let (scope1, rows1, batches1) = ensure_policy-SameScope s call db in
      let (scope2, rows2, batches2, is) = insert_rows-keeps call c i sub sha next locked db' b e2 in
      record {
        scope = SameScope-trans db locked db' scope1 scope2;
        installations = rows2 ∙ rows1;
        found =
            rw (batches2, batches1)
              (find-append (λ r. r.id == c.batch_id) db.batches b absent
                (rw is (==_refl c.batch_id)));
        by = rw is refl;
        in_sub_event = rw is refl;
        of_manifest = rw is refl;
      }

  pub place_old :
      (s : DesktopSession) (call : Call) (c : Contribution) (i : EventInstallation) (sub : ℕ)
      (sha : Text) (old b : ContributionBatch) (db db' : Db)
      → find (λ r. r.id == c.batch_id) db.batches ≡ some old
      → place_contribution p s call c i sub sha (some old) db ≡ ok (b, db')
      → IsPlaced c i sub sha b db db'
  unfolding place_contribution
  place_old s call c i sub sha old b db db' present e =
      ground (arith, =ᵗ_sound old.manifest_sha256 sha)

  pub place_again :
      (s : DesktopSession) (call : Call) (c : Contribution) (i : EventInstallation) (sub : ℕ)
      (sha : Text) (b : ContributionBatch) (db db' : Db)
      → IsPlaced c i sub sha b db db'
      → place_contribution p s call c i sub sha (find (λ r. r.id == c.batch_id) db'.batches) db'
        ≡ ok (b, db')
  unfolding place_contribution
  place_again s call c i sub sha b db db' x =
      rw x.found (
        ground (arith, ==_refl i.id, ==_refl sub, =ᵗ_refl sha, x.by, x.in_sub_event, x.of_manifest))
