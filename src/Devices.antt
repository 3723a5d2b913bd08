-- ===== src/Devices.antt =====
-- `register_event_installation` of apps/server/src/openfotos_server/events/desktop_auth.py: the
-- workstations that may contribute to an event.
pub mod Limit
pub mod Examples
use openfotos_platform.Prelude.{
  ℕ, Bool, true, not, ◌&&◌, ◌||◌, Option, none, some, List, [], ◌∷◌, ◌++◌, Text, Result, ok, err,
  raise_if, ◌>>=◌, ◌>>◌, ◌==◌, ltb, leb, any, find, keep, length, if◌then◌else◌,
}
use openfotos_platform.States.{InstallationStatus}
use openfotos_platform.Models.{
  Code, DesktopSession, EventInstallation, Db, AuditEntry, record_audit,
}
use openfotos_platform.Platform.{Platform}
use openfotos_platform.Ingest.Rows.{is_active, is_some_of, has_control}

-- `_active_membership`
unfoldable pub active_membership : DesktopSession → Db → Bool
active_membership s db =
    s.user_is_active
    && any (λ m. m.photographer == db.event.photographer && (m.user == s.user && m.is_active))
        db.memberships

abbrev pub active_count : List EventInstallation → ℕ
active_count rows = length (keep (λ i. is_active i.status) rows)

module _ (p : Platform) where
  open p use {strip}

  -- `_validated_label`
  unfoldable pub validated_label : Text → Result Code Text
  unfolding has_control
  validated_label label =
      let value = strip label in
      if length value == 0 || (ltb 100 (length value) || has_control value)
      then err Code.invalid_device_label
      else ok value

  abbrev pub known_installation :
      DesktopSession → EventInstallation → Db → Result Code (EventInstallation × Db)
  known_installation s existing db =
      if not (is_active existing.status) || not (is_some_of existing.user s.user)
      then err Code.installation_revoked
      else ok (existing, db)

  -- `fresh` is the new row's random id.
  unfoldable pub new_installation :
      DesktopSession → Text → (fresh : ℕ) → Db → Result Code (EventInstallation × Db)
  unfolding validated_label
  new_installation s label fresh db = do
    raise_if (leb db.event.max_contribution_devices (active_count db.installations))
        Code.event_device_limit
    value ← validated_label label
    let row : EventInstallation = record {
      id = fresh;
      user = some s.user;
      installation_id = s.installation_id;
      label = value;
      status = InstallationStatus.active;
      revoked_at = none;
    }
    ok (
      row,
      record_audit (AuditEntry.installation_registered fresh)
          (record db { installations = db.installations ++ row ∷ [] }),
    )

  unfoldable pub register_event_installation :
      DesktopSession → Text → (fresh : ℕ) → Db → Result Code (EventInstallation × Db)
  unfolding active_membership new_installation
  register_event_installation s label fresh db = do
    raise_if (not (active_membership s db)) Code.event_not_found
    raise_if (not (s.photographer == db.event.photographer)) Code.event_not_found
    elim (find (λ i. i.installation_id == s.installation_id) db.installations) [
      | some existing ↦ known_installation s existing db
      | none ↦ new_installation s label fresh db
    ]
