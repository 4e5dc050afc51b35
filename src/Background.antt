-- ===== src/Background.antt =====
-- extension/src/background/index.ts: the service worker.
pub mod SyncFrom
pub mod Exclusive
pub mod World
pub mod Steps
pub mod Syncing
pub mod SignOut
pub mod Initialize
pub mod Messages
pub mod Handlers
pub mod Dispatch
pub mod Keeping
pub mod Ending
pub mod Sound
pub mod Locked
pub mod CatchUp
