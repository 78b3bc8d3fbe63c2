-- ===== src/Core.antt =====
-- The core library: errors, text helpers and the protocol's data.
pub mod Error
pub mod Strings
pub mod Proto
pub mod Version
pub mod Extensions
pub mod Stream
pub mod Requests
