-- ===== src/Ingest.antt =====
-- The ingestion services.
pub mod Rows
pub mod Reserve
pub mod Verify
pub mod Exclude
pub mod Counters
pub mod Manifest
pub mod Status
pub mod Publish
pub mod Intake
pub mod Repeat
pub mod Leases
pub mod Examples
pub mod Runs
