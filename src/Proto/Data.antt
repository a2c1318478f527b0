-- ===== src/Proto/Data.antt =====
-- dersp/src/proto/data.rs: the frames, with the codecs that their `derive` attributes generate.
pub mod FrameType
pub mod Frames
pub mod Wire
pub mod Derived
