-- ===== src/EndToEnd/Crossing.antt =====
-- A packet's way between two relays: dersp/src/client.rs and dersp/src/service.rs at the relay
-- where it is sent, dersp/src/mesh_client.rs at the one that its target is connected to.
use dersp.Prelude.{
  ℕ, ◌+◌, ◌^◌, ◌<◌, ◌≡◌, refl, ap, ◌∙◌, Bool, true, false, none, some, List, [], ◌∷◌, ◌++◌,
  append-nil, length, arith,
}
use dersp.Exec.{ok, panic, then-ok}
use dersp.Net.{Writer}
use dersp.Crypto.Keys.{PublicKey, IsKey, key_eq}
use dersp.Channel.{Sink, WriteLoopCommand, ServiceCommand}
use dersp.Proto.Data.FrameType
use dersp.Proto.Data.FrameType.{tag, from_tag}
use dersp.Proto.Data.Frames.{decode_frame, decode_recv_packet}
use dersp.Proto.Data.Wire.RoundTrip.{wire_frame}
use dersp.Proto.Messages.Written.{appended}
use dersp.Client.ReadLoop.{ReadState, on_message}
use dersp.Client.WriteLoop.{write_loop}
use dersp.Client.Sending.{write_loop-wire_commands}
use dersp.Client.Delivery.{
  frame_message, on_message-send_packet, on_message-peer_present, write_loop-recv_packet,
}
use dersp.MeshClient.Loops.{on_mesh_message, mesh_write_loop}
use dersp.MeshClient.Forwarding.{
  wire_forward, on_mesh_message-forward_packet, mesh_write_loop-announces,
}
use dersp.KeyMap.{insert, contains_key}
use dersp.KeyMap.Laws.{get-insert_self}
use dersp.Service.State.{World}
use dersp.Service.Commands.{command_loop, learn_peer, add_peer}
use dersp.Service.Routing.{routes_of}
use dersp.EndToEnd.{received_frame, route_sends, recv_packet_decodes}

-- The service with a route that it did not have.
abbrev with_route : PublicKey → Sink → World → World
with_route k sink w = record w {
  service = record w.service { peers_sinks = insert k sink w.service.peers_sinks };
}

learn_new :
    (k : PublicKey) (sink : Sink) (w : World)
    → routes_of w k ≡ none
    → learn_peer k sink w ≡ (ok tt, with_route k sink w)
unfolding learn_peer add_peer
learn_new k sink w unknown =
    let absent : contains_key k w.service.peers_sinks ≡ false =
      unfold contains_key in ap (λ o. elim o [ none ↦ false | some v ↦ true ]) unknown in
    rw absent refl

-- A queue that announces a key and then holds a packet for it.
learned_route_sends :
    (source target : PublicKey) (payload : List ℕ) (sink : Sink) (w : World)
    → routes_of w target ≡ none
    → w.open_sinks sink ≡ true
    → command_loop
        (ServiceCommand.peer_present target sink
          ∷ ServiceCommand.send_packet source target payload
          ∷ [])
        w
      ≡ (
        ok tt,
        record (with_route target sink w) {
          sent = w.sent ++ ((sink, WriteLoopCommand.send_packet source target payload) ∷ []);
        },
      )
unfolding command_loop
learned_route_sends source target payload sink w unknown alive =
    then-ok (learn_peer target sink)
      (command_loop (ServiceCommand.send_packet source target payload ∷ [])) w
      (learn_new target sink w unknown)
    ∙ route_sends source target payload sink (with_route target sink w)
        (get-insert_self target sink w.service.peers_sinks) alive

-- What a relay writes to another one that has announced the packet's target.
write_loop-forwards :
    (relay source target : PublicKey) (payload : List ℕ) (out : Writer)
    → IsKey source
    → IsKey target
    → length payload + 64 < 2 ^ 32
    → key_eq target relay ≡ false
    → out.is_broken ≡ false
    → write_loop relay true (WriteLoopCommand.send_packet source target payload ∷ []) out ≡ (
      ok tt,
      appended out (wire_frame FrameType.forward_packet (wire_forward source target payload)),
    )
write_loop-forwards relay source target payload out hs ht small other intact =
    write_loop-wire_commands relay true (WriteLoopCommand.send_packet source target payload ∷ [])
      out ((hs, ht, small, refl), tt) intact
    ∙ rw other (
        ap (λ xs. (ok tt, appended out xs))
          (append-nil (wire_frame FrameType.forward_packet (wire_forward source target payload))))

-- A client of the relay `near` sends to a client of the relay `far`, which is linked to `near` as
-- the client `relay`, over the channel `link` there.
module _ (source target relay : PublicKey) (payload : List ℕ) (link home own far_link : Sink)
    (may_mesh mesh' : Bool) (near far : World) (sender peer linked : ReadState)
    (announcing crossing leaving : Writer) where
  abbrev announced : ServiceCommand
  announced = ServiceCommand.peer_present target link

  abbrev sent_on : ServiceCommand
  sent_on = ServiceCommand.send_packet source target payload

  abbrev to_write : WriteLoopCommand
  to_write = WriteLoopCommand.send_packet source target payload

  -- The far relay announces its client, and the near one queues the announcement.
  abbrev pub Announces : Type 0
  Announces =
      (mesh_write_loop (WriteLoopCommand.peer_present target ∷ []) announcing
        ≡ (panic, appended announcing (wire_frame FrameType.peer_present target.bytes)))
      × (on_message relay true link FrameType.peer_present
            (frame_message FrameType.peer_present target.bytes) peer
          ≡ (ok tt, record peer { queued = peer.queued ++ (announced ∷ []) }))

  -- The near relay takes the packet from its client, routes it to the link and writes it there.
  abbrev pub Forwards : Type 0
  Forwards =
      (on_message source may_mesh own FrameType.send_packet
          (frame_message FrameType.send_packet (target.bytes ++ payload)) sender
        ≡ (ok tt, record sender { queued = sender.queued ++ (sent_on ∷ []) }))
      × (command_loop (announced ∷ sent_on ∷ []) near ≡ (
        ok tt,
        record (with_route target link near) { sent = near.sent ++ ((link, to_write) ∷ []) },
      ))
      × (write_loop relay true (to_write ∷ []) crossing ≡ (
        ok tt,
        appended crossing
            (wire_frame FrameType.forward_packet (wire_forward source target payload)),
      ))

  -- The far relay takes it from the link, routes it to its client and writes it to it.
  abbrev pub Arrives : Type 0
  Arrives =
      (on_mesh_message far_link FrameType.forward_packet
          (frame_message FrameType.forward_packet (wire_forward source target payload)) linked
        ≡ (ok tt, record linked { queued = linked.queued ++ (sent_on ∷ []) }))
      × (command_loop (sent_on ∷ []) far
          ≡ (ok tt, record far { sent = far.sent ++ ((home, to_write) ∷ []) }))
      × (write_loop target mesh' (to_write ∷ []) leaving
          ≡ (ok tt, appended leaving (wire_frame FrameType.recv_packet (target.bytes ++ payload))))
      × (decode_frame decode_recv_packet
            (wire_frame FrameType.recv_packet (target.bytes ++ payload))
          ≡ (ok (received_frame target payload), []))

  -- Two relays, of which `far` is linked to `near` as the client `relay`: with keys of 32 bytes,
  -- a target that is not the link itself, a payload below 2^32 - 64 bytes, live services, open
  -- channels, connections that are not broken, no route to the target at `near` and one at `far`:
  -- the link writes the announcement of the target, and `near` queues it for the link's channel;
  -- a SendPacket frame of a client of `near`, queued behind it, is sent to that channel and
  -- written there as one ForwardPacket frame; and `far` queues this frame's packet with its
  -- source, sends it to the target's channel, and the target's write loop writes one RecvPacket
  -- frame, which decodes to the payload as it was sent.
  pub packet_crosses :
      IsKey source
      → IsKey target
      → length payload + 64 < 2 ^ 32
      → key_eq target relay ≡ false
      → sender.service_alive ≡ true
      → peer.service_alive ≡ true
      → linked.service_alive ≡ true
      → routes_of near target ≡ none
      → near.open_sinks link ≡ true
      → routes_of far target ≡ some home
      → far.open_sinks home ≡ true
      → announcing.is_broken ≡ false
      → crossing.is_broken ≡ false
      → leaving.is_broken ≡ false
      → Announces × Forwards × Arrives
  packet_crosses hs ht small other alive alive' alive'' unknown open_link known open_home sound
        sound' sound'' =
      (
        (
          mesh_write_loop-announces target announcing ht sound,
          on_message-peer_present relay target true link peer ht alive',
        ),
        (
          on_message-send_packet source target payload may_mesh own sender ht (omega (arith, small))
              alive,
          learned_route_sends source target payload link near unknown open_link,
          write_loop-forwards relay source target payload crossing hs ht small other sound',
        ),
        (
          on_mesh_message-forward_packet source target payload far_link linked hs ht small alive'',
          route_sends source target payload home far known open_home,
          write_loop-recv_packet target source payload mesh' leaving ht (omega (arith, small))
              sound'',
          recv_packet_decodes target payload ht (omega (arith, small)),
        ),
      )
