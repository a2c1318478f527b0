-- ===== src/Crypto.antt =====
-- dersp/src/crypto.rs: keys of 32 bytes. Elliptic curves, random numbers, hexadecimal and base64 are
-- other crates' and enter as parameters.
pub mod Keys
pub mod Secret
pub mod Clamp
pub mod Text
pub mod Bytes
pub mod Convert
