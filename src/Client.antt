-- ===== src/Client.antt =====
-- The client side: the parser of event streams.
pub mod Sse
