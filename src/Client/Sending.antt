-- ===== src/Client/Sending.antt =====
-- `Client::write_loop` of dersp/src/client.rs against what a client should be sent.
use dersp.Prelude.{
  ℕ, ◌+◌, ◌^◌, ◌<◌, ◌≡◌, sym, ap, ◌∙◌, Bool, true, false, not, ◌||◌, List, [], ◌∷◌, ◌++◌,
  append-nil, length, length-append, All, arith, Bool-cases, inl, inr, if◌then◌else◌,
}
use dersp.Exec.{ok, then-ok}
use dersp.Net.{Writer}
use dersp.Crypto.Keys.{PublicKey, IsKey, key_eq}
use dersp.Channel.{WriteLoopCommand}
use dersp.Proto.Data.FrameType.{FrameType}
use dersp.Proto.Data.Frames.{encode_recv_packet, decode_recv_packet, new_forward_packet}
use dersp.Proto.Data.Wire.Codecs.{recv_packet-IsCodec}
use dersp.Proto.Data.Wire.RoundTrip.{wire_frame}
use dersp.Proto.Messages.{write_peer_present}
use dersp.Proto.Messages.Written.{
  appended, appended-append, write_frame_lem, write_forward_packet_lem, write_peer_present_lem,
}
use dersp.Client.WriteLoop.{write_recv_packet, write_packet, write_loop}

-- A packet as a client is sent it: its own packets as `RecvPacket`, others' as `ForwardPacket`.
abbrev wire_packet : PublicKey → PublicKey → PublicKey → List ℕ → List ℕ
wire_packet pk source target payload =
    if key_eq target pk
    then wire_frame FrameType.recv_packet (target.bytes ++ payload)
    else wire_frame FrameType.forward_packet ((source.bytes ++ target.bytes) ++ payload)

-- The frames of a queue of commands, in its order, up to a stop.
abbrev pub wire_commands : PublicKey → List WriteLoopCommand → List ℕ
wire_commands pk [] = []
wire_commands pk (WriteLoopCommand.stop ∷ rest) = []
wire_commands pk (WriteLoopCommand.send_packet source target payload ∷ rest) =
    wire_packet pk source target payload ++ wire_commands pk rest
wire_commands pk (WriteLoopCommand.peer_present peer ∷ rest) =
    wire_frame FrameType.peer_present peer.bytes ++ wire_commands pk rest

-- What a client may be sent: keys of 32 bytes, payloads that leave room for a size, and packets for
-- other keys only if it may mesh.
abbrev pub IsSendable : PublicKey → Bool → WriteLoopCommand → Type 0
IsSendable pk can_mesh WriteLoopCommand.stop = Unit {0}
IsSendable pk can_mesh (WriteLoopCommand.send_packet source target payload) =
    IsKey source
    × IsKey target
    × (length payload + 64 < 2 ^ 32)
    × ((can_mesh || key_eq target pk) ≡ true)
IsSendable pk can_mesh (WriteLoopCommand.peer_present peer) = IsKey peer

write_recv_packet_lem :
    (target : PublicKey) (payload : List ℕ) (w : Writer)
    → IsKey target
    → length payload + 64 < 2 ^ 32
    → w.is_broken ≡ false
    → write_recv_packet target payload w
      ≡ (ok tt, appended w (wire_frame FrameType.recv_packet (target.bytes ++ payload)))
unfolding write_recv_packet
write_recv_packet_lem target payload w h small intact =
    write_frame_lem encode_recv_packet decode_recv_packet FrameType.recv_packet
      (record { target = target; payload = payload }) (target.bytes ++ payload) w
      (recv_packet-IsCodec (record { target = target; payload = payload }) h)
      (omega (arith, h.size, length-append target.bytes payload)) intact

write_packet_lem :
    (pk source target : PublicKey) (payload : List ℕ) (can_mesh : Bool) (w : Writer)
    → IsSendable pk can_mesh (WriteLoopCommand.send_packet source target payload)
    → w.is_broken ≡ false
    → write_packet can_mesh (not (key_eq target pk)) source target payload w
      ≡ (ok tt, appended w (wire_packet pk source target payload))
unfolding write_packet
write_packet_lem pk source target payload can_mesh w (hs, ht, small, may) intact =
    elim (Bool-cases (key_eq target pk)) [
      | inl own ↦ rw own (received_by can_mesh)
      | inr other ↦ rw other (forwarded can_mesh (rw other at may))
    ]
  where
    received_by :
        (b : Bool)
        → write_packet b false source target payload w
          ≡ (ok tt, appended w (wire_frame FrameType.recv_packet (target.bytes ++ payload)))
    received_by true = write_recv_packet_lem target payload w ht small intact
    received_by false = write_recv_packet_lem target payload w ht small intact

    forwarded :
        (b : Bool)
        → (b || false) ≡ true
        → write_packet b true source target payload w ≡ (
          ok tt,
          appended w
              (wire_frame FrameType.forward_packet ((source.bytes ++ target.bytes) ++ payload)),
        )
    forwarded true h =
        write_forward_packet_lem (new_forward_packet source target payload) w hs ht small intact
    forwarded false h = cc h

-- On a connection that does not break, with commands that the client may be sent (keys of 32
-- bytes, payloads that leave room for a size, and packets for other keys only if it may mesh),
-- the write loop ends well, and has written exactly the frames of the commands, in order, up to a
-- stop: RecvPacket for the client's own packets, ForwardPacket for others', PeerPresent for
-- peers.
pub write_loop-wire_commands :
    (pk : PublicKey) (can_mesh : Bool) (commands : List WriteLoopCommand) (w : Writer)
    → All (IsSendable pk can_mesh) commands
    → w.is_broken ≡ false
    → write_loop pk can_mesh commands w ≡ (ok tt, appended w (wire_commands pk commands))
unfolding write_loop
write_loop-wire_commands pk can_mesh [] w h intact =
    ap (λ xs. (ok tt, record w { written = xs })) (sym (append-nil w.written))
write_loop-wire_commands pk can_mesh (WriteLoopCommand.stop ∷ rest) w h intact =
    ap (λ xs. (ok tt, record w { written = xs })) (sym (append-nil w.written))
write_loop-wire_commands pk can_mesh (WriteLoopCommand.send_packet source target payload ∷ rest) w
      (now, later) intact =
    let wire = wire_packet pk source target payload in
    then-ok (write_packet can_mesh (not (key_eq target pk)) source target payload)
      (write_loop pk can_mesh rest) w
      (write_packet_lem pk source target payload can_mesh w now intact)
    ∙ write_loop-wire_commands pk can_mesh rest (appended w wire) later intact
    ∙ ap (λ v. (ok tt, v)) (appended-append w wire (wire_commands pk rest))
write_loop-wire_commands pk can_mesh (WriteLoopCommand.peer_present peer ∷ rest) w (now, later)
      intact =
    let wire = wire_frame FrameType.peer_present peer.bytes in
    then-ok (write_peer_present peer) (write_loop pk can_mesh rest) w
      (write_peer_present_lem peer w now intact)
    ∙ write_loop-wire_commands pk can_mesh rest (appended w wire) later intact
    ∙ ap (λ v. (ok tt, v)) (appended-append w wire (wire_commands pk rest))
