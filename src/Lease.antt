-- ===== src/Lease.antt =====
-- The leases that keep two workers from doing one job: source refreshes, Smart Digest runs and OPML
-- import entries (src/lib/source-refresh-leases.ts, src/lib/smart-digest-run-leases.ts,
-- src/lib/opml-import-leases.ts). A time is a number of milliseconds.
pub mod Time
pub mod Heartbeat
pub mod Source
pub mod Digest
pub mod Opml
