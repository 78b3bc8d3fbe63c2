-- ===== src/Push.antt =====
-- Push notifications of the server.
pub mod Store
