-- ===== src/Client/Delivery.antt =====
-- A packet's way through the server: a client's frame, the command, and the bytes that the target's
-- write loop writes (dersp/src/client.rs).
use dersp.Prelude.{
  ℕ, ◌+◌, ◌^◌, ◌<◌, ◌≡◌, refl, ◌∙◌, Bool, true, false, not, List, [], ◌∷◌, ◌++◌, length,
  length-append, arith,
}
use dersp.Codec.Read.{Decode}
use dersp.Codec.Encode.{Encode}
use dersp.Exec.{ok, bind-ok}
use dersp.Net.{Writer}
use dersp.Codec.Types.{wrap}
use dersp.Codec.Laws.Reads.{Reads→Drains}
use dersp.Crypto.Keys.{PublicKey, IsKey, key_eq}
use dersp.KeyMap.Laws.{key_eq_refl}
use dersp.Channel.{Sink, WriteLoopCommand, ServiceCommand}
use dersp.InOut.{Message}
use dersp.Proto.Data.FrameType.{FrameType, tag, from_tag}
use dersp.Proto.Data.Frames.{
  decode_frame, decode_send_packet, encode_recv_packet, decode_recv_packet, encode_send_packet,
  decode_peer_present, encode_peer_present,
}
use dersp.Client.ReadLoop.{submit_or_panic, ReadState, submit, open_frame, on_message}
use dersp.Proto.Data.Wire.Codecs.{
  peer_present-IsCodec, IsCodec, send_packet-IsCodec, recv_packet-IsCodec,
}
use dersp.Proto.Data.Wire.RoundTrip.{wire_frame, Reads-frame, IsCanonical}
use dersp.Proto.Messages.Written.{appended, write_frame_lem}
use dersp.Client.WriteLoop.{write_recv_packet, write_packet, write_loop}

-- A message with the bytes of a frame.
abbrev pub frame_message : FrameType → List ℕ → Message
frame_message ty xs = record { ty = ty; buffer = wire_frame ty xs }

-- Opening the frame of a value returns the value and leaves the connection alone.
pub open_frame_lem :
    {T : Type 0} (encode : Encode T) (decode : Decode T) (ty : FrameType) (x : T) (xs : List ℕ)
    (s : ReadState)
    → IsCodec encode decode x xs
    → length xs < 2 ^ 32
    → IsCanonical ty
    → open_frame decode (frame_message ty xs) s ≡ (ok x, s)
unfolding open_frame
open_frame_lem encode decode ty x xs s c small canonical =
    let read =
      Reads→Drains (decode_frame decode) (record { frame_type = ty; inner = wrap x })
        (wire_frame ty xs) (Reads-frame encode decode ty x xs c small canonical) in
    rw read

-- The frame of a packet from a client becomes one routing command, with the client's key as the
-- source and the payload as it was sent.
pub on_message-send_packet :
    (pk target : PublicKey) (payload : List ℕ) (can_mesh : Bool) (sink : Sink) (s : ReadState)
    → IsKey target
    → length payload + 32 < 2 ^ 32
    → s.service_alive ≡ true
    → on_message pk can_mesh sink FrameType.send_packet
        (frame_message FrameType.send_packet (target.bytes ++ payload))
        s
      ≡ (
        ok tt,
        record s { queued = s.queued ++ (ServiceCommand.send_packet pk target payload ∷ []) },
      )
unfolding on_message open_frame submit
on_message-send_packet pk target payload can_mesh sink s h small alive =
    bind-ok
      (open_frame decode_send_packet
        (frame_message FrameType.send_packet (target.bytes ++ payload)))
      _
      (open_frame_lem encode_send_packet decode_send_packet FrameType.send_packet
        (record { target = target; payload = payload }) (target.bytes ++ payload) s
        (send_packet-IsCodec (record { target = target; payload = payload }) h)
        (omega (arith, h.size, length-append target.bytes payload)) (unfold tag from_tag in refl))
    ∙ rw alive

-- A packet for the client itself is written to it as one `RecvPacket` frame, from which the
-- receiving side decodes the payload, and the key that it carries is the target's.
pub write_loop-recv_packet :
    (pk source : PublicKey) (payload : List ℕ) (can_mesh : Bool) (w : Writer)
    → IsKey pk
    → length payload + 32 < 2 ^ 32
    → w.is_broken ≡ false
    → write_loop pk can_mesh (WriteLoopCommand.send_packet source pk payload ∷ []) w
      ≡ (ok tt, appended w (wire_frame FrameType.recv_packet (pk.bytes ++ payload)))
unfolding write_loop write_packet write_recv_packet
write_loop-recv_packet pk source payload can_mesh w h small sound =
    let written =
      write_frame_lem encode_recv_packet decode_recv_packet FrameType.recv_packet
        (record { target = pk; payload = payload }) (pk.bytes ++ payload) w
        (recv_packet-IsCodec (record { target = pk; payload = payload }) h)
        (omega (arith, h.size, length-append pk.bytes payload)) sound in
    bind-ok (write_packet can_mesh (not (key_eq pk pk)) source pk payload) _
      (to_itself can_mesh ∙ written)
  where
    to_itself :
        (b : Bool)
        → write_packet b (not (key_eq pk pk)) source pk payload w ≡ write_recv_packet pk payload w
    to_itself true = rw (key_eq_refl pk)
    to_itself false = rw (key_eq_refl pk)

-- An announcement of a peer becomes one command, with the channel of the connection that it came
-- over.
pub on_message-peer_present :
    (pk peer : PublicKey) (can_mesh : Bool) (sink : Sink) (s : ReadState)
    → IsKey peer
    → s.service_alive ≡ true
    → on_message pk can_mesh sink FrameType.peer_present
        (frame_message FrameType.peer_present peer.bytes)
        s
      ≡ (ok tt, record s { queued = s.queued ++ (ServiceCommand.peer_present peer sink ∷ []) })
unfolding on_message submit submit_or_panic
on_message-peer_present pk peer can_mesh sink s h alive =
    bind-ok (open_frame decode_peer_present (frame_message FrameType.peer_present peer.bytes)) _ (
      open_frame_lem encode_peer_present decode_peer_present FrameType.peer_present
        (record { public_key = peer }) peer.bytes s
        (peer_present-IsCodec (record { public_key = peer }) h) (omega (arith, h.size))
        (unfold tag from_tag in refl))
    ∙ rw alive
