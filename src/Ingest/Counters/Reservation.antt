-- ===== src/Ingest/Counters/Reservation.antt =====
-- Reserving a contribution keeps the totals exact and within the event's allowance.
use openfotos_platform.Ingest.Rows.{event_for_session}
use openfotos_platform.Prelude.{
  ◌&&◌, ◌=ᵗ◌, raise_if, if_ind, ◌==◌, ℕ, ◌+◌, ◌≤◌, ◌≡◌, Option, none, some, List, [], ◌∷◌, ◌++◌, ok,
  err, find, total, total-append, length, arith, map, or_raise, ◌≢◌, >>=-eq-ok,
}
use openfotos_platform.States.{EventState, Variant}
use openfotos_platform.Models.{
  Code, Event, AssetObject, Db, DesktopSession, EventInstallation, ContributionBatch,
  event_original_asset_limit,
}
use openfotos_platform.Platform.{Platform, OriginalAsset}
use openfotos_platform.Keys.{asset_key}
use openfotos_platform.Devices.{register_event_installation, new_installation}
use openfotos_platform.Ingest.Reserve.{
  is_active_sub_event, place_contribution, new_batch, new_asset, insert_rows, Contribution, Call,
  original_bytes, reservation_checks, new_originals, insert_contribution, reserve_contribution,
  ensure_policy,
}
use openfotos_platform.Ingest.Counters.{
  any, bind-Settles, Settles, live_bytes, live_count, delivered_bytes, delivered_count, IsExact,
  CountersExact, save_event-exact,
}

-- The reserved rows of a contribution weigh what the contribution declares.
record Weighs (as' : List OriginalAsset) (rows : List AssetObject) : Type 0 where
  bytes : total live_bytes rows ≡ total (λ a. a.size_bytes) as'
  count : total live_count rows ≡ length as'
  no_bytes : total delivered_bytes rows ≡ 0
  no_count : total delivered_count rows ≡ 0

-- What the checks establish of the event.
record HasRoom (c : Contribution) (e : Event) (next : EventState) : Type 0 where
  room_bytes : e.reserved_original_bytes + original_bytes c ≤ e.storage_limit_bytes
  room_count : e.reserved_original_count + length c.assets ≤ event_original_asset_limit
  uploading : next ≡ EventState.uploading

reservation_checks-HasRoom :
    (c : Contribution) (db : Db) (next : EventState)
    → reservation_checks c db ≡ ok next
    → HasRoom c db.event next
unfolding reservation_checks
reservation_checks-HasRoom c db next h = ground arith

-- The event and the database with the new rows.
abbrev grown : Contribution → EventState → Event → Event
grown c next e = record e {
  reserved_original_bytes = e.reserved_original_bytes + original_bytes c;
  reserved_original_count = e.reserved_original_count + length c.assets;
  state = next;
}

abbrev with_rows : Contribution → ContributionBatch → List AssetObject → Db → Db
with_rows c batch rows db = record db {
  batches = db.batches ++ batch ∷ [];
  assets = db.assets ++ map (new_asset c.batch_id) c.assets;
  objects = db.objects ++ rows;
}

IsExact-grown :
    (c : Contribution) (next : EventState) (db : Db) (rows : List AssetObject)
    → HasRoom c db.event next
    → CountersExact db
    → Weighs c.assets rows
    → IsExact (grown c next db.event) (db.objects ++ rows)
IsExact-grown c next db rows room x w = ground (
  arith,
  total-append live_bytes db.objects rows,
  total-append live_count db.objects rows,
  total-append delivered_bytes db.objects rows,
  total-append delivered_count db.objects rows,
)

CountersExact-ensure_policy :
    (s : DesktopSession) (call : Call) (db : Db)
    → CountersExact db
    → CountersExact (ensure_policy s call db)
CountersExact-ensure_policy s call db x = ground arith

HasRoom-ensure_policy :
    (s : DesktopSession) (call : Call) (c : Contribution) (next : EventState) (db : Db)
    → HasRoom c db.event next
    → HasRoom c (ensure_policy s call db).event next
HasRoom-ensure_policy s call c next db x = ground arith

reservation_checks-ne-integrity_error :
    (c : Contribution) (db : Db) → reservation_checks c db ≢ err Code.integrity_error
unfolding reservation_checks
reservation_checks-ne-integrity_error c db e = ground arith

pub event_for_session-ne-integrity_error :
    (s : DesktopSession) (event_id : ℕ) (db : Db)
    → event_for_session s event_id db ≢ err Code.integrity_error
unfolding event_for_session
event_for_session-ne-integrity_error s event_id db e = ground arith

module _ (p : Platform) where
  new_originals-Weighs :
      (event batch : ℕ) (as' : List OriginalAsset) (rows : List AssetObject)
      → new_originals p event batch as' ≡ ok rows
      → Weighs as' rows
  unfolding new_originals total
  new_originals-Weighs event batch [] rows h = ground arith
  new_originals-Weighs event batch (a ∷ as') rows h =
      let (key, _, h1) =
        >>=-eq-ok
          (or_raise Code.value_error
            (asset_key p.uuid_text event a.id Variant.original a.content_type))
          _ h in
      let (rest, e, h2) = >>=-eq-ok (new_originals p event batch as') _ h1 in
      ground (arith, new_originals-Weighs event batch as' rest e)

  new_originals-ne-integrity_error :
      (event batch : ℕ) (as' : List OriginalAsset)
      → new_originals p event batch as' ≢ err Code.integrity_error
  unfolding new_originals
  new_originals-ne-integrity_error event batch [] h = cc
  new_originals-ne-integrity_error event batch (a ∷ as') h =
      ground (arith, new_originals-ne-integrity_error event batch as')

  -- A registration touches neither the event nor its uploads.
  pub register_event_installation-keeps :
      (s : DesktopSession) (label : List ℕ) (fresh : ℕ) (db db' : Db) (i : EventInstallation)
      → register_event_installation p s label fresh db ≡ ok (i, db')
      → (db'.event ≡ db.event) × (db'.objects ≡ db.objects)
  unfolding register_event_installation new_installation
  register_event_installation-keeps s label fresh db db' i h = ground arith

  register-ne-integrity_error :
      (s : DesktopSession) (label : List ℕ) (fresh : ℕ) (db : Db)
      → register_event_installation p s label fresh db ≢ err Code.integrity_error
  unfolding register_event_installation new_installation
  register-ne-integrity_error s label fresh db e = ground arith

  insert_rows-Settles :
      (call : Call) (c : Contribution) (i : EventInstallation) (sub : ℕ) (sha : List ℕ)
      (next : EventState) (db : Db)
      → HasRoom c db.event next
      → CountersExact db
      → Settles (insert_rows p call c i sub sha next db)
  unfolding insert_rows
  insert_rows-Settles call c i sub sha next db room x =
      bind-Settles (new_originals p db.event.id c.batch_id c.assets) _
        (new_originals-ne-integrity_error db.event.id c.batch_id c.assets)
        λ rows built.
          let weighs = new_originals-Weighs db.event.id c.batch_id c.assets rows built in
          let batch = new_batch p c i sub sha db.event in
          let (db', saved, x', _, _) =
            save_event-exact call.now (grown c next db.event) (with_rows c batch rows db)
              (IsExact-grown c next db rows room x weighs) in
          rw saved x'

  place_contribution-Settles :
      (s : DesktopSession) (call : Call) (c : Contribution) (i : EventInstallation) (sub : ℕ)
      (sha : List ℕ) (existing : Option ContributionBatch) (db : Db)
      → CountersExact db
      → Settles (place_contribution p s call c i sub sha existing db)
  unfolding place_contribution insert_contribution
  place_contribution-Settles s call c i sub sha (some b) db x =
      if_ind (Settles {A = ContributionBatch})
        (b.installation == i.id && (b.sub_event == sub && b.manifest_sha256 =ᵗ sha)) (λ _. x)
        (λ _ e. cc)
  place_contribution-Settles s call c i sub sha none db x =
      bind-Settles
        (raise_if (any (λ i. i == c.batch_id) db.taken_batches) Code.idempotency_conflict) _
        (λ e. ground arith)
        λ _ _.
          bind-Settles (reservation_checks c db) _ (reservation_checks-ne-integrity_error c db)
            λ next checked.
              insert_rows-Settles call c i sub sha next (ensure_policy s call db)
                (HasRoom-ensure_policy s call c next db
                  (reservation_checks-HasRoom c db next checked))
                (CountersExact-ensure_policy s call db x)

  -- From exact totals, a reservation that is accepted leaves exact totals within the event's
  -- allowance, and none is refused by a check constraint of the database.
  pub reserve_contribution-Settles :
      (s : DesktopSession) (event_id : ℕ) (c : Contribution) (call : Call) (db : Db)
      → CountersExact db
      → Settles (reserve_contribution p s event_id c call db)
  unfolding reserve_contribution
  reserve_contribution-Settles s event_id c call db x =
      bind-Settles (event_for_session s event_id db) _
        (event_for_session-ne-integrity_error s event_id db)
        λ event _.
          bind-Settles (register_event_installation p s c.device_label call.installation_id db) _
            (register-ne-integrity_error s c.device_label call.installation_id db)
            λ (i, db1) registered.
              let (same_event, same_objects) =
                register_event_installation-keeps s c.device_label call.installation_id db db1 i
                  registered in
              bind-Settles
                (or_raise Code.sub_event_not_found
                  (find (is_active_sub_event c.sub_event_id) db1.sub_events))
                _ (λ e. ground arith)
                λ sub _.
                  place_contribution-Settles s call c i sub.id _ _ db1
                    (rw (same_event, same_objects) x)
