-- ===== src/Proto/Handshake.antt =====
-- The handshake of dersp/src/proto/mod.rs: the server's side, the client's side, and both
-- together.
pub mod Server
pub mod Client
pub mod Exchange
pub mod Accept
pub mod Info
pub mod Agreement
