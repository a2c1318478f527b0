-- ===== src/Derive.antt =====
-- The crate `codec-derive`: the macros that write the codecs of a struct or an enum.
pub mod Syntax
pub mod Attr
pub mod Decode
pub mod Encode
pub mod Decoding
pub mod Meaning
pub mod Plain
pub mod Accepts
pub mod Parts
pub mod Places
pub mod RoundTrip
pub mod Variants
pub mod Enums
