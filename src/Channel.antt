-- ===== src/Channel.antt =====
-- The channels between the tasks: tokio's `Sender` and `Receiver`. A `Sender<WriteLoopCommands>` is
-- the number of its channel; a send fails once the receiver is gone.
use dersp.Prelude.{ℕ, List}
use dersp.Crypto.Keys.{PublicKey}

abbrev pub Sink : Type 0
Sink = ℕ

-- `enum WriteLoopCommands` of dersp/src/client.rs
pub data WriteLoopCommand : Type 0 where
  send_packet : PublicKey → PublicKey → List ℕ → WriteLoopCommand
  peer_present : PublicKey → WriteLoopCommand
  stop : WriteLoopCommand

-- `enum ServiceCommand` of dersp/src/service.rs
pub data ServiceCommand : Type 0 where
  stop : ServiceCommand
  send_packet : PublicKey → PublicKey → List ℕ → ServiceCommand
  subscribe_for_peer_changes : PublicKey → Sink → ServiceCommand
  peer_present : PublicKey → Sink → ServiceCommand

-- A message on its way to the write loop of a channel.
abbrev pub Delivery : Type 0
Delivery = Sink × WriteLoopCommand
