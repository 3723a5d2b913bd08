-- ===== src/Devices/Examples.antt =====
-- A registration, and the witness of its theorem.
use openfotos_platform.Prelude.{any, find, keep, ◌≡◌, ◌≤◌, refl, true, ok, arith, ◌∷◌, []}
use openfotos_platform.Keys.{codes}
use openfotos_platform.Samples.{plain, start, session}
use openfotos_platform.Ingest.Rows.{is_active}
use openfotos_platform.Devices.{
  none, InstallationStatus, AuditEntry, some, EventInstallation, Db, active_count,
  register_event_installation, new_installation, validated_label, active_membership,
}
use openfotos_platform.Devices.Limit.{register-keeps_limit}

abbrev mac : EventInstallation
mac = record {
  id = 70;
  user = some 20;
  installation_id = 40;
  label = codes "Mac";
  status = InstallationStatus.active;
  revoked_at = none;
}

abbrev registered : Db
registered = record start {
  installations = mac ∷ [];
  audit = AuditEntry.installation_registered 70 ∷ [];
}

mac-registered :
    register_event_installation plain session (codes "Mac") 70 start ≡ ok (mac, registered)
unfolding register_event_installation new_installation validated_label active_membership any find
    keep
mac-registered = refl

start_within : active_count start.installations ≤ start.event.max_contribution_devices
unfolding keep
start_within = ground arith

register-keeps_limit_example :
    (active_count registered.installations ≤ registered.event.max_contribution_devices)
    × (is_active mac.status ≡ true)
    × (register_event_installation plain session [] 71 registered ≡ ok (mac, registered))
register-keeps_limit_example =
    register-keeps_limit plain session (codes "Mac") [] 70 71 start registered mac mac-registered
      start_within
