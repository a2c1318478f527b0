-- ===== src/Proto.antt =====
-- The DERP protocol: dersp/src/proto.
pub mod Data
pub mod Messages
pub mod ClientInfo
pub mod Handshake
