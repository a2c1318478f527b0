-- ===== src/EndToEnd.antt =====
-- A packet's way from one client's connection to another's, through dersp/src/client.rs,
-- dersp/src/service.rs and back.
use dersp.Prelude.{
  ℕ, ◌+◌, ◌^◌, ◌<◌, ◌≡◌, refl, Bool, true, false, some, List, [], ◌∷◌, ◌++◌, length, length-append,
  arith,
}
use dersp.Exec.{ok}
use dersp.Net.{Writer}
use dersp.Codec.Types.{wrap}
use dersp.Codec.Laws.Reads.{Reads→Drains}
use dersp.Crypto.Keys.{PublicKey, IsKey}
use dersp.Channel.{Sink, WriteLoopCommand, ServiceCommand}
use dersp.Proto.Data.FrameType
use dersp.Proto.Data.FrameType.{tag, from_tag}
use dersp.Proto.Data.Frames.{
  Frame, RecvPacket, decode_frame, encode_recv_packet, decode_recv_packet,
}
use dersp.Proto.Data.Wire.Codecs.{recv_packet-IsCodec}
use dersp.Proto.Data.Wire.RoundTrip.{wire_frame, Reads-frame}
use dersp.Proto.Messages.Written.{appended}
use dersp.Client.ReadLoop.{ReadState, on_message}
use dersp.Client.WriteLoop.{write_loop}
use dersp.Client.Delivery.{frame_message, on_message-send_packet, write_loop-recv_packet}
use dersp.Service.State.{World}
use dersp.Service.Commands.{command_loop}
use dersp.Service.Routing.{routes_of}
pub mod Crossing

-- What the target's client reads.
abbrev pub received_frame : PublicKey → List ℕ → Frame RecvPacket
received_frame target payload = record {
  frame_type = FrameType.recv_packet;
  inner = wrap (record { target = target; payload = payload });
}

pub recv_packet_decodes :
    (target : PublicKey) (payload : List ℕ)
    → IsKey target
    → length payload + 32 < 2 ^ 32
    → decode_frame decode_recv_packet (wire_frame FrameType.recv_packet (target.bytes ++ payload))
      ≡ (ok (received_frame target payload), [])
recv_packet_decodes target payload h small =
    let packet : RecvPacket = record { target = target; payload = payload } in
    Reads→Drains (decode_frame decode_recv_packet) (received_frame target payload) _ (
      Reads-frame encode_recv_packet decode_recv_packet FrameType.recv_packet packet
        (target.bytes ++ payload) (recv_packet-IsCodec packet h)
        (omega (arith, h.size, length-append target.bytes payload)) (unfold tag from_tag in refl))

pub route_sends :
    (source target : PublicKey) (payload : List ℕ) (sink : Sink) (w : World)
    → routes_of w target ≡ some sink
    → w.open_sinks sink ≡ true
    → command_loop (ServiceCommand.send_packet source target payload ∷ []) w ≡ (
      ok tt,
      record w {
        sent = w.sent ++ ((sink, WriteLoopCommand.send_packet source target payload) ∷ []);
      },
    )
unfolding command_loop
route_sends source target payload sink w known alive = rw (known, alive)

module _ (source target : PublicKey) (payload : List ℕ) (sink : Sink) (may_mesh mesh' : Bool)
    (own_sink : Sink) (s : ReadState) (w : World) (out : Writer) where
  abbrev command : ServiceCommand
  command = ServiceCommand.send_packet source target payload

  abbrev delivered : WriteLoopCommand
  delivered = WriteLoopCommand.send_packet source target payload

  abbrev bytes_written : List ℕ
  bytes_written = wire_frame FrameType.recv_packet (target.bytes ++ payload)

  -- For a target key of 32 bytes, a payload below 2^32 - 32 bytes, a live service, a route from
  -- the target to an open channel and a connection that is not broken: a client's SendPacket
  -- frame queues exactly one command with the client's key as source; the service sends exactly
  -- one message, to the target's channel; the target's write loop writes exactly one RecvPacket
  -- frame; and that frame decodes to the payload as it was sent, with the target's own key as its
  -- key.
  pub packet_arrives :
      IsKey target
      → length payload + 32 < 2 ^ 32
      → s.service_alive ≡ true
      → routes_of w target ≡ some sink
      → w.open_sinks sink ≡ true
      → out.is_broken ≡ false
      → (on_message source may_mesh own_sink FrameType.send_packet
            (frame_message FrameType.send_packet (target.bytes ++ payload))
            s
          ≡ (ok tt, record s { queued = s.queued ++ (command ∷ []) }))
        × (command_loop (command ∷ []) w
            ≡ (ok tt, record w { sent = w.sent ++ ((sink, delivered) ∷ []) }))
        × (write_loop target mesh' (delivered ∷ []) out ≡ (ok tt, appended out bytes_written))
        × (decode_frame decode_recv_packet bytes_written ≡ (ok (received_frame target payload), []))
  packet_arrives h small alive known open_sink sound = (
    on_message-send_packet source target payload may_mesh own_sink s h small alive,
    route_sends source target payload sink w known open_sink,
    write_loop-recv_packet target source payload mesh' out h small sound,
    recv_packet_decodes target payload h small,
  )
