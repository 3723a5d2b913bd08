-- ===== src/Ingest/Examples.antt =====
-- Runs of the ingestion services, and the witnesses of their theorems.
use openfotos_platform.Ingest.Counters.Release.{DerivativesBacked}
use openfotos_platform.Prelude.{refl, arith, [], ◌∷◌, total, any}
use openfotos_platform.Samples.{plain, start, session, contribution, call, pending, good_head}
use openfotos_platform.Ingest.Rows.{World}
use openfotos_platform.Ingest.Reserve.{reserve_contribution}
use openfotos_platform.Ingest.Verify.{verify_locked, verify_uploaded_object}
use openfotos_platform.Ingest.Exclude.{exclude_asset, cancel_batch}
use openfotos_platform.Ingest.Publish.{commit_publication_snapshot}
use openfotos_platform.Ingest.Counters.{CountersExact, Settles}
use openfotos_platform.Ingest.Counters.Keeps.{Keeps}
use openfotos_platform.Ingest.Counters.Reservation.{reserve_contribution-Settles}
use openfotos_platform.Ingest.Counters.Upload.{
  verify_locked-CountersExact, verify_uploaded_object-CountersExact,
}
use openfotos_platform.Ingest.Counters.Exclusion.{exclude_asset-Keeps, cancel_batch-Keeps}
use openfotos_platform.Ingest.Counters.Publication.{commit_publication_snapshot-Keeps}

start-exact : CountersExact start
unfolding total
start-exact = ground arith

pending-exact : CountersExact pending
unfolding total
pending-exact = ground arith

abbrev pending_world : World plain
pending_world = record { db = pending; bucket = (60 ∷ [], good_head 60 400) ∷ [] }

reserve_contribution-Settles_example :
    Settles (reserve_contribution plain session 1 contribution call start)
reserve_contribution-Settles_example =
    reserve_contribution-Settles plain session 1 contribution call start start-exact

verify_locked-CountersExact_example :
    CountersExact (verify_locked plain 9 (good_head 60 400) 60 pending_world).1.db
verify_locked-CountersExact_example =
    verify_locked-CountersExact plain 9 (good_head 60 400) 60 pending_world pending-exact

verify_uploaded_object-CountersExact_example :
    CountersExact (verify_uploaded_object plain session 1 60 9 pending_world).1.db
verify_uploaded_object-CountersExact_example =
    verify_uploaded_object-CountersExact plain session 1 60 9 pending_world pending-exact

exclude_asset-Keeps_example :
    Keeps plain (exclude_asset plain session 1 61 9 (66 ∷ []) pending_world)
exclude_asset-Keeps_example =
    exclude_asset-Keeps plain session 1 61 9 (66 ∷ []) pending_world pending-exact

pending-DerivativesBacked : DerivativesBacked pending.objects
unfolding any
pending-DerivativesBacked batch h = ground arith

cancel_batch-Keeps_example : Keeps plain (cancel_batch plain session 1 50 9 pending_world)
cancel_batch-Keeps_example =
    cancel_batch-Keeps plain session 1 50 9 pending_world pending-exact pending-DerivativesBacked

commit_publication_snapshot-Keeps_example :
    Keeps plain (commit_publication_snapshot plain 9 20 pending_world)
commit_publication_snapshot-Keeps_example =
    commit_publication_snapshot-Keeps plain 9 20 pending_world pending-exact refl
