-- ===== src/Mobile.antt =====
-- The mobile client: changes queued while it is offline, their flush, and its cache
-- (packages/mobile-client/src/offline.ts, apps/mobile/src/storage/mobile-offline-store.ts,
-- apps/mobile/src/sync/flush-pending-mutations.ts).
pub mod Mutation
pub mod Replay
pub mod Queue
pub mod Flush
pub mod Cache
