-- ===== src/Proto/Data/Derived.antt =====
-- The structs and the enum of dersp/src/proto/data.rs and the key of dersp/src/crypto.rs as the input
-- of the macros of codec-derive/src/lib.rs.
pub mod Program
pub mod Structs
pub mod Tags
pub mod Generic
pub mod Agrees
