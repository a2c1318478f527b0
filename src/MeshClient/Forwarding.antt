-- ===== src/MeshClient/Forwarding.antt =====
-- A packet from another relay, and the announcement that makes it come (dersp/src/mesh_client.rs).
use dersp.Prelude.{
  ℕ, ◌+◌, ◌^◌, ◌<◌, ◌≡◌, refl, ap, ◌∙◌, true, false, List, [], ◌∷◌, ◌++◌, append-nil, length,
  length-append, arith,
}
use dersp.Exec.{ok, panic, bind-ok}
use dersp.Net.{Writer}
use dersp.Crypto.Keys.{PublicKey, IsKey}
use dersp.Channel.{Sink, WriteLoopCommand, ServiceCommand}
use dersp.Proto.Data.FrameType
use dersp.Proto.Data.FrameType.{tag, from_tag}
use dersp.Proto.Data.Frames.{encode_forward_packet, decode_forward_packet, new_forward_packet}
use dersp.Proto.Data.Wire.Codecs.{forward_packet-IsCodec}
use dersp.Proto.Data.Wire.RoundTrip.{wire_frame}
use dersp.Proto.Messages.Written.{appended}
use dersp.Client.ReadLoop.{ReadState, open_frame, submit}
use dersp.Client.Delivery.{frame_message, open_frame_lem}
use dersp.MeshClient.Loops.{on_mesh_message, mesh_write_loop}
use dersp.MeshClient.Relaying.{mesh_write_loop-leading_peers}

-- The bytes of a forwarded packet.
abbrev pub wire_forward : PublicKey → PublicKey → List ℕ → List ℕ
wire_forward source target payload = (source.bytes ++ target.bytes) ++ payload

pub on_mesh_message-forward_packet :
    (source target : PublicKey) (payload : List ℕ) (sink : Sink) (s : ReadState)
    → IsKey source
    → IsKey target
    → length payload + 64 < 2 ^ 32
    → s.service_alive ≡ true
    → on_mesh_message sink FrameType.forward_packet
        (frame_message FrameType.forward_packet (wire_forward source target payload))
        s
      ≡ (
        ok tt,
        record s { queued = s.queued ++ (ServiceCommand.send_packet source target payload ∷ []) },
      )
unfolding on_mesh_message submit
on_mesh_message-forward_packet source target payload sink s hs ht small alive =
    bind-ok
      (open_frame decode_forward_packet
        (frame_message FrameType.forward_packet (wire_forward source target payload)))
      _
      (open_frame_lem encode_forward_packet decode_forward_packet FrameType.forward_packet
        (new_forward_packet source target payload) (wire_forward source target payload) s
        (forward_packet-IsCodec (new_forward_packet source target payload) hs ht)
        (omega (
          arith,
          hs.size,
          ht.size,
          length-append (source.bytes ++ target.bytes) payload,
          length-append source.bytes target.bytes,
        ))
        (unfold tag from_tag in refl))
    ∙ rw alive

-- What one relay's link writes when the relay has a new client.
pub mesh_write_loop-announces :
    (k : PublicKey) (out : Writer)
    → IsKey k
    → out.is_broken ≡ false
    → mesh_write_loop (WriteLoopCommand.peer_present k ∷ []) out
      ≡ (panic, appended out (wire_frame FrameType.peer_present k.bytes))
mesh_write_loop-announces k out h intact =
    mesh_write_loop-leading_peers (WriteLoopCommand.peer_present k ∷ []) out (h, tt) intact
    ∙ ap (λ xs. (panic, appended out xs)) (append-nil (wire_frame FrameType.peer_present k.bytes))
