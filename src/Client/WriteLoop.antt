-- ===== src/Client/WriteLoop.antt =====
-- `Client::write_loop` of dersp/src/client.rs.
use dersp.Prelude.{ℕ, Bool, true, false, not, List, [], ◌∷◌}
use dersp.Exec.{Exec, pure, abort, ◌>>◌}
use dersp.Failure.{Failure}
use dersp.Net.{Writer}
use dersp.Codec.Types.{wrap}
use dersp.Crypto.Keys.{PublicKey, key_eq}
use dersp.Channel.{WriteLoopCommand}
use dersp.Proto.Data.FrameType.{recv_packet}
use dersp.Proto.Data.Frames.{encode_recv_packet, new_forward_packet}
use dersp.Proto.Messages.{write_frame, write_peer_present, write_forward_packet}

-- The arm `(_, false)`: the packet is for this client.
unfoldable pub write_recv_packet : PublicKey → List ℕ → Exec Failure Writer (Unit {0})
write_recv_packet target payload = write_frame encode_recv_packet (record {
  frame_type = recv_packet;
  inner = wrap (record { target = target; payload = payload });
})

-- The `match (can_mesh, target != pk)`; `(false, true)` is a `todo!()`.
unfoldable pub write_packet :
    Bool → Bool → PublicKey → PublicKey → List ℕ → Exec Failure Writer (Unit {0})
unfolding write_recv_packet
write_packet true true source target payload =
    write_forward_packet (new_forward_packet source target payload)
write_packet true false source target payload = write_recv_packet target payload
write_packet false false source target payload = write_recv_packet target payload
write_packet false true source target payload = abort

-- The loop over the commands that the channel delivers; `None` ends it like `_Stop`.
unfoldable pub write_loop :
    PublicKey → Bool → List WriteLoopCommand → Exec Failure Writer (Unit {0})
unfolding write_packet
write_loop pk can_mesh [] = pure tt
write_loop pk can_mesh (WriteLoopCommand.send_packet source target payload ∷ rest) =
    write_packet can_mesh (not (key_eq target pk)) source target payload
    >> write_loop pk can_mesh rest
write_loop pk can_mesh (WriteLoopCommand.stop ∷ rest) = pure tt
write_loop pk can_mesh (WriteLoopCommand.peer_present peer ∷ rest) =
    write_peer_present peer >> write_loop pk can_mesh rest
