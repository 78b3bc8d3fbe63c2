-- ===== src/Tasks.antt =====
-- The server's task layer: histories, page cursors, the in-memory store and the lifecycle service.
pub mod History
pub mod Cursor
pub mod Listing
pub mod Store
pub mod Lifecycle
mod Examples
