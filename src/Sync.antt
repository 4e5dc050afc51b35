-- ===== src/Sync.antt =====
-- Synchronisation: extension/src/sync/client.ts and delta-queue.ts, and the server's endpoints
-- that they call.
pub mod Http
pub mod Queue
pub mod Server
pub mod Push
pub mod Pull
pub mod Action
pub mod Requests
pub mod Events
