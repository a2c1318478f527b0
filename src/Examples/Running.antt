-- ===== src/Examples/Running.antt =====
-- A run of the whole program.
use dersp.Prelude.{
  ℕ, ◌≡◌, refl, true, Option, none, some, List, [], ◌∷◌, All, inl, inr, bytes_eq, ◌++◌, ap, arith,
  false,
}
use dersp.Crypto.Keys.{key_eq}
use dersp.Channel.{WriteLoopCommand, ServiceCommand, Delivery}
use dersp.Service.Clients.{add_new_client, authorize}
use dersp.Service.Commands.{command_loop}
use dersp.Client.Delivery.{frame_message, on_message-send_packet}
use dersp.Service.State.{send}
use dersp.KeyMap.{keys, insert, contains_key, get}
use dersp.Client.ReadLoop.{on_message}
use dersp.InOut.{Message}
use dersp.Proto.Data.FrameType.{FrameType}
use dersp.System.Steps.{
  Admitted, System, Step, Reach, initial, accepted, received, handled, forwarded, delivered, closed,
  reading_for, enrol,
}
use dersp.System.Orderly.{IsSound}
use dersp.System.Preserved.{Reach-IsSound}
use dersp.System.Outage.{packets, ended-silences}
use dersp.System.Presence.{IsConfided, sent-IsConfided, IsLocal, alone-IsLocal}
use dersp.Examples.Fixtures.{alice, bob, bob-IsKey}

abbrev server_key : Option (List ℕ)
server_key = some (7 ∷ [])

-- Alice presents the server's mesh key, bob presents none, and alice subscribes.
abbrev both : System
both = accepted true bob none (accepted true alice server_key (initial server_key))

abbrev alice_admitted : Admitted
alice_admitted = record { pk = alice; meshkey = server_key; can_mesh = true; sink = 0 }

abbrev watch : Message
watch = record { ty = FrameType.watch_conns; buffer = [] }

abbrev asked : System
asked = received alice_admitted watch both

abbrev subscribed : System
subscribed = handled (ServiceCommand.subscribe_for_peer_changes alice 0) [] asked

-- The task of the subscription tells alice of bob.
abbrev told : System
told = delivered ([] ∷ [] ∷ []) (0, WriteLoopCommand.peer_present bob) [] [] subscribed

both-reached : Reach (initial server_key) both
both-reached =
    Reach.next (Reach.next Reach.here (Step.accept true alice server_key))
      (Step.accept true bob none)

asked-reached : Reach (initial server_key) asked
unfolding accepted add_new_client authorize bytes_eq enrol
asked-reached = Reach.next both-reached (Step.receive alice_admitted watch (inr (inl refl)))

told-reached : Reach (initial server_key) told
unfolding accepted received handled add_new_client authorize bytes_eq on_message command_loop keys
    insert key_eq contains_key get
told-reached =
    Reach.next
      (Reach.next asked-reached
        (Step.handle (ServiceCommand.subscribe_for_peer_changes alice 0) [] refl refl refl))
      (Step.deliver ([] ∷ [] ∷ []) (0, WriteLoopCommand.peer_present bob) [] [] refl)

told-sent : told.world.sent ≡ (0, WriteLoopCommand.peer_present bob) ∷ []
unfolding delivered send handled command_loop received accepted add_new_client authorize bytes_eq
told-sent = refl

Reach-IsSound_example : IsSound server_key told
Reach-IsSound_example = Reach-IsSound server_key told-reached

sent-IsConfided_example : All (IsConfided server_key told) told.world.sent
sent-IsConfided_example = sent-IsConfided server_key told told-reached

-- A server without a mesh key; bob's channel is gone, and alice sends him a packet.
abbrev pair : System
pair = closed 1 (accepted true bob none (accepted true alice none (initial none)))

abbrev alice_alone : Admitted
alice_alone = record { pk = alice; meshkey = none; can_mesh = false; sink = 0 }

abbrev letter : Message
letter = frame_message FrameType.send_packet (bob.bytes ++ (7 ∷ []))

abbrev lost : ServiceCommand
lost = ServiceCommand.send_packet alice bob (7 ∷ [])

abbrev posted : System
posted = received alice_alone letter pair

abbrev taken : System
taken = handled lost [] posted

-- Bob's channel was found, and then the send fails.
abbrev lost_delivery : Delivery
lost_delivery = (1, WriteLoopCommand.send_packet alice bob (7 ∷ []))

abbrev ended : System
ended = forwarded lost_delivery taken

pair-reached : Reach (initial none) pair
pair-reached =
    Reach.next
      (Reach.next (Reach.next Reach.here (Step.accept true alice none)) (Step.accept true bob none))
      (Step.close 1)

posted-queue : posted.queue ≡ lost ∷ []
unfolding received closed accepted
posted-queue =
    ap (λ r. r.1.queued)
      (on_message-send_packet alice bob (7 ∷ []) false 0 (reading_for pair) bob-IsKey (omega arith)
        refl)

ended-reached : Reach (initial none) ended
unfolding accepted received closed add_new_client authorize enrol handled insert get key_eq bytes_eq
ended-reached =
    Reach.next
      (Reach.next (Reach.next pair-reached (Step.receive alice_alone letter (inr (inl refl))))
        (Step.handle lost [] refl refl posted-queue))
      (Step.forward lost_delivery refl refl)

alone-IsLocal_example :
    (pair.links ≡ []) × (pair.world.service.mesh ≡ []) × All (IsLocal pair.clients) pair.world.sent
alone-IsLocal_example = alone-IsLocal pair pair-reached

ended-silences_example :
    ((closed 0 ended).running ≡ false)
    × ((closed 0 ended).queue ≡ ended.queue)
    × (packets (closed 0 ended).world.sent ≡ packets ended.world.sent)
unfolding forwarded send handled command_loop get key_eq bytes_eq accepted received closed
    add_new_client authorize insert
ended-silences_example =
    ended-silences none ended (closed 0 ended) ended-reached refl
      (Reach.next Reach.here (Step.close 0))
