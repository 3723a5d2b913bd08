-- ===== src/Ingest/Intake/Revoked.antt =====
-- A workstation that was revoked.
use openfotos_platform.Prelude.{
  Bool-cases, find-update, find_sound, ==_refl, ◌∙◌, ◌+◌, refl, if◌then◌else◌, Bool, List, [], ◌∷◌,
  inl, inr, keep, update, Text, ℕ, ◌≡◌, ◌≤◌, true, false, some, ok, err, arith, find, ◌==◌,
}
use openfotos_platform.Models.{DesktopSession, EventInstallation, Db, Code}
use openfotos_platform.Platform.{Platform}
use openfotos_platform.Ingest.Rows.{is_active, event_for_session}
use openfotos_platform.Devices.{active_membership, register_event_installation, active_count}
use openfotos_platform.Ingest.Intake.{revoked_row, revoke_installation}

abbrev is_own : (installation_id : ℕ) → EventInstallation → Bool
is_own installation_id i = i.installation_id == installation_id

active_count-revoked :
    (q : EventInstallation → Bool) (now : ℕ) (rows : List EventInstallation)
    → active_count (update q (revoked_row now) rows) ≤ active_count rows
unfolding keep update
active_count-revoked q now [] = ground arith
active_count-revoked q now (r ∷ rows) = ground (arith, active_count-revoked q now rows)

-- One of the revoked rows was active.
active_count-found :
    (q : EventInstallation → Bool) (now : ℕ) (rows : List EventInstallation)
    (own : EventInstallation)
    → find q rows ≡ some own
    → is_active own.status ≡ true
    → active_count (update q (revoked_row now) rows) + 1 ≤ active_count rows
unfolding keep update find
active_count-found q now [] own f a = ground arith
active_count-found q now (r ∷ rows) own f a =
    ground (arith, active_count-found q now rows own, active_count-revoked q now rows)

-- What a revocation writes, for the row that it finds.
revocation :
    (s : DesktopSession) (event_id id now : ℕ) (db db' : Db) (row own : EventInstallation)
    → find (λ i. i.id == id) db.installations ≡ some own
    → revoke_installation s event_id id now db ≡ ok (row, db')
    → (db'.event ≡ db.event)
      × (db'.memberships ≡ db.memberships)
      × (db'.installations ≡ (
          if is_active own.status
          then update (λ i. i.id == own.id) (revoked_row now) db.installations
          else db.installations))
unfolding revoke_installation event_for_session
revocation s event_id id now db db' row own f e = ground (arith, f)

-- The row of the desktop is not active afterwards.
own_row :
    (installation_id now : ℕ) (own : EventInstallation) (before after : List EventInstallation)
    → find (is_own installation_id) before ≡ some own
    → after ≡ (
        if is_active own.status
        then update (λ i. i.id == own.id) (revoked_row now) before
        else before)
    → (left : EventInstallation) × (find (is_own installation_id) after ≡ some left)
      × (is_active left.status ≡ false)
own_row installation_id now own before after f e = elim (Bool-cases (is_active own.status)) [
  | inr idle ↦ (own, ground (arith, e, idle, f), idle)
  | inl active ↦
      let moved =
        find-update (is_own installation_id) (λ i. i.id == own.id) (revoked_row now) (λ i. refl)
          before own f in
      (revoked_row now own, ground (arith, e, active, moved, ==_refl own.id), refl)
]

fewer_active :
    (id now : ℕ) (own : EventInstallation) (before after : List EventInstallation)
    → find (λ i. i.id == id) before ≡ some own
    → after ≡ (
        if is_active own.status
        then update (λ i. i.id == own.id) (revoked_row now) before
        else before)
    → active_count after + (if is_active own.status then 1 else 0) ≤ active_count before
fewer_active id now own before after f e =
    let same = find_sound (λ i. i.id == id) before own f in
    elim (Bool-cases (is_active own.status)) [
      | inr idle ↦ ground (arith, e, idle)
      | inl active ↦
          let found : find (λ i. i.id == own.id) before ≡ some own = ground (arith, same, f) in
          ground
            (arith, e, active, active_count-found (λ i. i.id == own.id) now before own found active)
    ]

refused :
    (p : Platform) (t : DesktopSession) (label : Text) (fresh : ℕ) (db : Db)
    (left : EventInstallation)
    → active_membership t db ≡ true
    → t.photographer ≡ db.event.photographer
    → find (is_own t.installation_id) db.installations ≡ some left
    → is_active left.status ≡ false
    → register_event_installation p t label fresh db ≡ err Code.installation_revoked
unfolding register_event_installation
refused p t label fresh db left m h f idle =
    rw (register_event_installation, m, f) (ground (arith, h, idle))

same_membership :
    (t : DesktopSession) (db db' : Db)
    → db'.event ≡ db.event
    → db'.memberships ≡ db.memberships
    → active_membership t db' ≡ active_membership t db
unfolding active_membership
same_membership t db db' e m = rw (e, m) refl

-- A desktop of a member whose workstation is revoked is refused when it registers afterwards, with any
-- label; and there is at least one active workstation fewer, where the revoked one was active.
pub revoke-bars :
    (p : Platform) (s t : DesktopSession) (label : Text) (event_id id now fresh : ℕ) (db db' : Db)
    (row own : EventInstallation)
    → find (λ i. i.id == id) db.installations ≡ some own
    → find (λ i. i.installation_id == t.installation_id) db.installations ≡ some own
    → active_membership t db ≡ true
    → t.photographer ≡ db.event.photographer
    → revoke_installation s event_id id now db ≡ ok (row, db')
    → (register_event_installation p t label fresh db' ≡ err Code.installation_revoked)
      × (active_count db'.installations + (if is_active own.status then 1 else 0)
          ≤ active_count db.installations)
revoke-bars p s t label event_id id now fresh db db' row own f g m h e =
    let (event, memberships, rows) = revocation s event_id id now db db' row own f e in
    let (left, found, idle) =
      own_row t.installation_id now own db.installations db'.installations g rows in
    (
      refused p t label fresh db' left (same_membership t db db' event memberships ∙ m)
          (ground (arith, h, event)) found idle,
      fewer_active id now own db.installations db'.installations f rows,
    )
