-- ===== src/Background/Handlers.antt =====
-- The message handlers of extension/src/background/index.ts.
pub mod Session
pub mod Profiles
pub mod Account
pub mod ImportConflict
