-- ===== src/Client.antt =====
-- dersp/src/client.rs: a connected client's two loops.
pub mod ReadLoop
pub mod WriteLoop
pub mod Authentic
pub mod Delivery
pub mod Sending
pub mod Running
