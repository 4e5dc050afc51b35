-- ===== src/Bookmarks.antt =====
-- extension/src/bookmarks/bridge.ts: the mapper between the browser's bookmarks and the document.
pub mod Node
pub mod Roots
pub mod Mapping
pub mod TopoSort
pub mod Walk
pub mod Offline
pub mod Import
pub mod Listeners
pub mod Browser
pub mod Reconcile
pub mod Orphans
