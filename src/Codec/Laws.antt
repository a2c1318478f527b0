-- ===== src/Codec/Laws.antt =====
-- What the implementations of `Encode` and `Decode` in the `codec` crate do to the bytes.
pub mod Emits
pub mod Containers
pub mod Sized
pub mod Reads
pub mod Safe
pub mod Buffers
pub mod Exact
