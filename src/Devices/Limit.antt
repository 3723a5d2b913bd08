-- ===== src/Devices/Limit.antt =====
-- How many workstations may contribute to an event.
use openfotos_platform.Prelude.{
  find-append, ℕ, ◌≡◌, ◌≤◌, true, List, [], ◌∷◌, ◌++◌, Text, ok, arith, ◌==◌, keep, ◌+◌, ==_refl,
}
use openfotos_platform.Models.{DesktopSession, EventInstallation, Db}
use openfotos_platform.Platform.{Platform}
use openfotos_platform.Ingest.Rows.{is_active}
use openfotos_platform.Devices.{active_count, register_event_installation, new_installation}

active_count-append :
    (rows : List EventInstallation) (row : EventInstallation)
    → is_active row.status ≡ true
    → active_count (rows ++ row ∷ []) ≡ active_count rows + 1
unfolding keep
active_count-append [] row h = ground arith
active_count-append (r ∷ rows) row h = ground (arith, active_count-append rows row h)

-- An accepted registration of an event within its limit of active workstations keeps the event within
-- it, the row it returns is active, and the same desktop registers again without a change, whatever
-- label it gives then.
pub register-keeps_limit :
    (p : Platform) (s : DesktopSession) (label again : Text) (fresh other : ℕ) (db db' : Db)
    (row : EventInstallation)
    → register_event_installation p s label fresh db ≡ ok (row, db')
    → active_count db.installations ≤ db.event.max_contribution_devices
    → (active_count db'.installations ≤ db'.event.max_contribution_devices)
      × (is_active row.status ≡ true)
      × (register_event_installation p s again other db' ≡ ok (row, db'))
unfolding register_event_installation new_installation
register-keeps_limit p s label again fresh other db db' row e h = ground (
  arith,
  active_count-append db.installations row,
  find-append (λ i. i.installation_id == s.installation_id) db.installations row,
  ==_refl s.installation_id,
)
