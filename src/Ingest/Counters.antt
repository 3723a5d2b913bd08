-- ===== src/Ingest/Counters.antt =====
-- The event's running totals against the rows: what each upload contributes, and the invariant that
-- the totals are exact and stay within the event's allowance.
pub mod Upload
pub mod Release
pub mod Keeps
pub mod Exclusion
pub mod Publication
pub mod Reservation
use openfotos_platform.Prelude.{
  ap, ◌>>=◌, ◌≢◌, err, Result, ℕ, ◌≤◌, ◌≡◌, refl, any, Bool-cases, inl, inr, Bool, true, false, not,
  ◌&&◌, ◌||◌, ok, List, total, total_mono, if◌then◌else◌, arith,
}
use openfotos_platform.States.{EventState, ◌=ˢ◌}
use openfotos_platform.Models.{
  Code, Event, AssetObject, Db, is_set, event_original_asset_limit, satisfies_constraints,
  save_event,
}
use openfotos_platform.Ingest.Rows.{
  is_original, is_verified, is_excluded, is_pending_original, complete_batch_if_terminal,
}

-- An original that holds a reservation: not excluded.
abbrev pub is_live : AssetObject → Bool
is_live o = is_original o.variant && not (is_excluded o.state)

abbrev pub is_delivered : AssetObject → Bool
is_delivered o = is_original o.variant && is_verified o.state

abbrev pub live_bytes : AssetObject → ℕ
live_bytes o = if is_live o then o.expected_bytes else 0

abbrev pub live_count : AssetObject → ℕ
live_count o = if is_live o then 1 else 0

abbrev pub delivered_bytes : AssetObject → ℕ
delivered_bytes o = if is_delivered o then o.expected_bytes else 0

abbrev pub delivered_count : AssetObject → ℕ
delivered_count o = if is_delivered o then 1 else 0

-- The four totals of the event are those of its rows, and the allowance is kept.
pub record IsExact (e : Event) (objects : List AssetObject) : Type 0 where
  pub reserved_bytes : e.reserved_original_bytes ≡ total live_bytes objects
  pub reserved_count : e.reserved_original_count ≡ total live_count objects
  pub verified_bytes : e.verified_original_bytes ≡ total delivered_bytes objects
  pub verified_count : e.verified_original_count ≡ total delivered_count objects
  pub within_bytes : e.reserved_original_bytes ≤ e.storage_limit_bytes
  pub within_count : e.reserved_original_count ≤ event_original_asset_limit
  pub expiry : (not (e.state =ˢ EventState.published) || is_set e.expires_at) ≡ true

abbrev pub CountersExact : Db → Type 0
CountersExact db = IsExact db.event db.objects

delivered_bytes-le-live : (o : AssetObject) → delivered_bytes o ≤ live_bytes o
delivered_bytes-le-live o = ground arith

delivered_count-le-live : (o : AssetObject) → delivered_count o ≤ live_count o
delivered_count-le-live o = ground arith

-- Exact totals satisfy every check constraint of the table.
pub IsExact-satisfies_constraints :
    (e : Event) (objects : List AssetObject) → IsExact e objects → satisfies_constraints e ≡ true
unfolding satisfies_constraints
IsExact-satisfies_constraints e objects x = ground (
  arith,
  total_mono delivered_bytes live_bytes delivered_bytes-le-live objects,
  total_mono delivered_count live_count delivered_count-le-live objects,
)

pub IsExact-updated_at :
    (now : ℕ) (e : Event) (objects : List AssetObject)
    → IsExact e objects
    → IsExact (record e { updated_at = now }) objects
IsExact-updated_at now e objects x = ground arith

-- A save of exact totals is accepted.
pub save_event-exact :
    (now : ℕ) (e : Event) (db : Db)
    → IsExact e db.objects
    → (db' : Db) × (save_event now e db ≡ ok db')
      × CountersExact db'
      × (db'.objects ≡ db.objects)
      × (db'.event ≡ record e { updated_at = now })
unfolding save_event
save_event-exact now e db x = (
  record db { event = record e { updated_at = now } },
  rw (IsExact-satisfies_constraints e db.objects x),
  IsExact-updated_at now e db.objects x,
  refl,
  refl,
)

pub CountersExact-complete_batch :
    (batch now : ℕ) (db : Db)
    → CountersExact db
    → CountersExact (complete_batch_if_terminal batch now db)
unfolding complete_batch_if_terminal
CountersExact-complete_batch batch now db x =
    elim (Bool-cases (any (is_pending_original batch) db.objects)) [
      | inl e ↦ rw e x
      | inr e ↦ rw e x
    ]

-- The outcome of a transaction: exact totals after a commit, and no raise by a check constraint.
abbrev pub Settles : {A : Type 0} → Result Code (A × Db) → Type 0
Settles (ok (a, db)) = CountersExact db
Settles (err c) = c ≢ Code.integrity_error

pub bind-Settles :
    {A B : Type 0} (m : Result Code A) (f : A → Result Code (B × Db))
    → m ≢ err Code.integrity_error
    → ((a : A) → m ≡ ok a → Settles (f a))
    → Settles (m >>= f)
bind-Settles (ok a) f h k = k a refl
bind-Settles (err c) f h k = λ e. h (ap err e)
