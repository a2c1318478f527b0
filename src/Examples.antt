-- ===== src/Examples.antt =====
-- Runs of the program's functions on concrete data, and the theorems at concrete inputs.
mod Fixtures
mod Codecs
mod Streams
mod Clients
mod Services
mod Running
mod Delivery
mod Handshake
mod Joining
mod Keys
mod Linking
mod Deriving
mod Structs
mod Typing
mod Vouching
mod Enums
