-- ===== src/System/Typed.antt =====
-- What is well formed of the commands and the messages that dersp/src/service.rs handles.
use dersp.Prelude.{ℕ, ◌+◌, ◌^◌, ◌<◌, List, length, All}
use dersp.Crypto.Keys.{PublicKey, IsKey}
use dersp.Channel.{Sink, WriteLoopCommand, ServiceCommand, Delivery}
pub mod Reading
pub mod Serving
pub mod Reaching

-- The keys of a command have 32 bytes, and a payload fits into a frame behind a key.
abbrev pub IsTyped : ServiceCommand → Type 0
IsTyped ServiceCommand.stop = Unit {0}
IsTyped (ServiceCommand.send_packet source target payload) =
    IsKey source × IsKey target × (length payload + 32 < 2 ^ 32)
IsTyped (ServiceCommand.subscribe_for_peer_changes k sink) = IsKey k
IsTyped (ServiceCommand.peer_present k sink) = IsKey k

-- What the service sends: packets and announcements that can be written.
abbrev pub IsTypedDelivery : Delivery → Type 0
IsTypedDelivery (sink, WriteLoopCommand.stop) = ⊥
IsTypedDelivery (sink, WriteLoopCommand.send_packet source target payload) =
    IsKey source × IsKey target × (length payload + 32 < 2 ^ 32)
IsTypedDelivery (sink, WriteLoopCommand.peer_present k) = IsKey k
