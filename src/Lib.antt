-- ===== src/Lib.antt =====
-- OpenFotos platform: photographers' desktops deliver the original photos of an event to the server,
-- which verifies each object, publishes a snapshot of what arrived, and derives a gallery from it.
--
-- The parts and their files (events/ is apps/server/src/openfotos_server/events/):
--   States       packages/contracts/src/openfotos_contracts/states.py (and `AssetVariant` of
--                derivatives.py): the states of events, contributions and uploads, the transitions
--   Lifecycle    apps/server/src/openfotos_server/events/event_lifecycle.py: the pure decisions
--   Transitions  `transition_event` of events/services.py
--   Models       apps/server/src/openfotos_server/events/models.py: the rows that one event owns (`Db`),
--                and the check constraints of the table of events (`save_event`)
--   Platform     what the server calls: the object store, digests, text functions
--   Keys         packages/storage/src/openfotos_storage/keys.py: the keys of stored objects
--   Devices      `register_event_installation` of events/desktop_auth.py
--   Sessions     the desktop sessions of events/desktop_auth.py: sign-in, refresh, sign-out
--   Ingest       events/ingestion_services.py, one child for a command or a few: Rows (queries and
--                guards), Reserve (`reserve_contribution`), Leases (`issue_upload_leases`), Verify
--                (`verify_uploaded_object`), Exclude (`exclude_asset`, `cancel_batch`), Manifest,
--                Status and Publish (`commit_publication_snapshot`), Intake (`close_intake`,
--                `reopen_intake`, `revoke_installation`); Counters is about the event's totals, and
--                Repeat about a contribution that is sent again
--   Derivatives  events/derivative_services.py: `verify_derivative`, `refresh_derivative_readiness`,
--                Leases (`issue_derivative_leases`, `issue_owned_original_url`) and Failures
--                (`report_derivative_failure`)
--   Finalize     `finalize_ingestion` of events/ingestion_services.py
--   FaceIndex    `refresh_face_index_readiness` of events/face_services.py
--   SubEvents    events/sub_event_services.py
--   RateLimits   events/rate_limits.py: fixed windows over a table of buckets
--   Checkpoint   apps/desktop/src/openfotos_desktop/ingestion/checkpoint.py and models.py: the SQLite store
--                of a desktop. Events (the cached events), Batches (contributions, selections, the
--                steps of a scan), Inventory (files and issues), Approval (`summary`, `approve_batch`),
--                Pending, Uploads, Previews and Faces (the checkpoints of what a reserved contribution
--                still needs)
--   Scanner      apps/desktop/src/openfotos_desktop/ingestion/scanner.py: the walk of the selected
--                folders, a scan (Scan), the relocation of a selection (Relocate)
--   Samples      a small event and a concrete object store, on which the examples run
--
-- How the code is modelled. A command that runs in one transaction is a function from `Db` to
-- `Result Code (A × Db)`: a raise is `err` with the exception's code and leaves the database as it was.
-- A command that also calls the object store takes and returns a `World`, the database and the bucket: an
-- object that is removed stays removed when the transaction is rolled back. `select_for_update` makes the
-- commands of one event sequential, so an interleaving is a sequence of these functions; where the code
-- reads before it locks, the locked part is a function of its own (`verify_locked`, `settle_derivative`)
-- that takes what was read as an argument; `finalize_ingestion`
-- has two transactions, and takes what other requests do between them as an argument. A check constraint that would be violated is the code
-- `integrity_error`. Ids, times (microseconds) and byte counts are naturals; text is a list of code
-- points. The desktop's commands are functions from `Store` to a `Result StoreError`, with a pair of an
-- answer and the store where a command is more than one transaction, so that what was committed before a
-- failure stays. Loops are recursions on lists, but for the walk of a folder: its fuel is the number of
-- directories that it may open, which is enough on a finite tree. Random ids and the time of a call are
-- arguments.
--
-- Parameters. The object store, SHA-256 and MD5, the keyed hash, `str(uuid)`, `strip`, `lower` and
-- `casefold` are fields of the records `Platform`, `Hashing` and `TokenPolicy`, the desktop's
-- path functions and its disk of `Host` and `Disk`, and the comparison of names by the database of
-- `Naming`; the answer of the
-- framework's `authenticate` and fresh tokens are arguments. Nothing is assumed of them, but that
-- theorems on keys and on sub-events name what they need of printed ids and of names.
--
-- Not modelled: the list of a session's events, the preview policy and the registration of derivatives; the HTTP
-- surface, templates and settings of the server; the analyses and the search of faces, retention, the
-- portfolio and sharing; the positions of photos in the gallery; the desktop's user interface,
-- transfers and threads, and the migrations of its database; the vision package. Other
-- events are present in `Db` only by the ids of their batches and assets.
pub mod Prelude
pub mod States
pub mod Lifecycle
pub mod Models
pub mod Platform
pub mod Keys
pub mod FaceIndex
pub mod Ingest
pub mod Devices
pub mod Checkpoint
pub mod Derivatives
pub mod Samples
pub mod RateLimits
pub mod Scanner
pub mod Sessions
pub mod SubEvents
pub mod Transitions
pub mod Finalize
