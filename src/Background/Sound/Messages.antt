-- ===== src/Background/Sound/Messages.antt =====
-- The handlers keep the worker sound.
pub mod Session
pub mod Conflict
pub mod Profiles
pub mod Account
pub mod Events
