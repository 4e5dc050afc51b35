-- ===== src/Tests.antt =====
-- Concrete data, and the theorems applied to it.
mod Created
pub mod Data
mod Bookmarks
mod Import
mod Listeners
mod Sync
mod Stream
mod Auth
mod Background
mod Worker
