-- ===== src/Proto/Data/Wire.antt =====
-- The wire format of the frames, and the round trips through it.
pub mod Codecs
pub mod RoundTrip
pub mod Packets
pub mod Untrusted
pub mod Exact
pub mod Bodies
