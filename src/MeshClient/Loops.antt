-- ===== src/MeshClient/Loops.antt =====
-- The two loops of dersp/src/mesh_client.rs.
use dersp.Prelude.{ℕ, zero, suc, List, [], ◌∷◌}
use dersp.Exec.{Exec, panic, abort, lift, ◌>>=◌, ◌>>◌, stuck}
use dersp.Failure.{Failure}
use dersp.Net.{Writer}
use dersp.Codec.Encode.{unwrap_result}
use dersp.Channel.{Sink, WriteLoopCommand, ServiceCommand}
use dersp.InOut.{Message}
use dersp.Client.ReadLoop.{ReadState, submit, submit_or_panic, open_frame, next}
use dersp.Proto.Data.FrameType.{FrameType}
use dersp.Proto.Data.Frames.{decode_peer_present, decode_forward_packet}
use dersp.Proto.Messages.{write_peer_present}

-- The `match message.ty` of `MeshClient::read_loop`; the last arm is a `todo!()`.
unfoldable pub on_mesh_message : Sink → FrameType → Message → Exec Failure ReadState (Unit {0})
unfolding submit submit_or_panic open_frame
on_mesh_message sender FrameType.peer_present message = do
  peer ← open_frame decode_peer_present message
  submit_or_panic (ServiceCommand.peer_present peer.public_key sender)
on_mesh_message sender FrameType.forward_packet message = do
  packet ← open_frame decode_forward_packet message
  submit (ServiceCommand.send_packet packet.source packet.target packet.payload)
on_mesh_message sender _ message = abort

unfoldable pub mesh_read_loop : ℕ → ℕ → Sink → Exec Failure ReadState (Unit {0})
unfolding next on_mesh_message
mesh_read_loop fuel zero sender = lift stuck
mesh_read_loop fuel (suc rounds) sender = do
  message ← next fuel
  on_mesh_message sender message.ty message
  mesh_read_loop fuel rounds sender

-- `write_peer_present(…).await.unwrap()`
unfoldable pub notify_peer : WriteLoopCommand → Exec Failure Writer (Unit {0})
notify_peer (WriteLoopCommand.peer_present pk) w =
    let (r, w') = write_peer_present pk w in (unwrap_result r, w')
notify_peer (WriteLoopCommand.send_packet source target payload) w = (panic, w)
notify_peer WriteLoopCommand.stop w = (panic, w)

-- `write_loop`: everything but `PeerPresent` is a `todo!`, the end of the channel too.
unfoldable pub mesh_write_loop : List WriteLoopCommand → Exec Failure Writer (Unit {0})
unfolding notify_peer
mesh_write_loop [] = abort
mesh_write_loop (command ∷ rest) = notify_peer command >> mesh_write_loop rest
