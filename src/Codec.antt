-- ===== src/Codec.antt =====
-- The `codec` crate: reading and writing types in network byte order.
pub mod Read
pub mod Write
pub mod Types
pub mod Encode
pub mod Decode
pub mod Laws
