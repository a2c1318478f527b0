-- ===== src/Examples/Typing.antt =====
-- What is well formed on concrete bytes.
use dersp.Prelude.{◌≡◌, refl, false, true, none, [], ◌∷◌, ◌++◌, All, Any, inl, inr, arith}
use dersp.Net.{received}
use dersp.Codec.Encode.{to_be_bytes}
use dersp.InOut.{Message, DerpReader, new_reader}
use dersp.Proto.Data.FrameType.{FrameType, tag}
use dersp.Client.ReadLoop.{read_loop}
use dersp.Client.Delivery.{frame_message}
use dersp.MeshClient.Loops.{mesh_read_loop}
use dersp.Service.Clients.{add_new_client, authorize}
use dersp.System.Steps.{Admitted, System, Step, Reach, initial, accepted, enrol}
use dersp.System.Steps
use dersp.System.Typed.{IsTyped}
use dersp.System.Typed.Reading.{read_loops-AreTyped}
use dersp.System.Typed.Reaching.{IsTypedSystem, IsCleanReach, Reach-IsTypedSystem}
use dersp.Examples.Fixtures.{alice, bob, alice-IsKey, bob-IsKey}

-- An announcement of bob in two pieces, and the beginning of another frame.
abbrev announcing : DerpReader
announcing =
    new_reader
      (received (9 ∷ 0 ∷ 0 ∷ []) ∷ received (0 ∷ 32 ∷ bob.bytes) ∷ received (4 ∷ 0 ∷ []) ∷ [])

read_loops-AreTyped_example :
    All IsTyped
      (read_loop 9 3 alice false 1
        (record { connection = announcing; queued = []; service_alive = true })).1.queued
    × All IsTyped
        (mesh_read_loop 9 3 1
          (record { connection = announcing; queued = []; service_alive = true })).1.queued
read_loops-AreTyped_example =
    read_loops-AreTyped 9 3 alice false 1 announcing true alice-IsKey (tt, omega arith)

-- Alice and bob have joined, and alice sends bob a packet.
abbrev joined : System
joined = accepted true bob none (accepted true alice none (initial none))

abbrev alice_joined : Admitted
alice_joined = record { pk = alice; meshkey = none; can_mesh = false; sink = 0 }

abbrev letter : Message
letter = frame_message FrameType.send_packet (bob.bytes ++ (7 ∷ []))

alice_is_there : Any (λ c. c ≡ alice_joined) joined.clients
unfolding accepted add_new_client authorize enrol
alice_is_there = inr (inl refl)

abbrev posting : Reach (initial none) (Steps.received alice_joined letter joined)
posting =
    Reach.next
      (Reach.next (Reach.next Reach.here (Step.accept true alice none)) (Step.accept true bob none))
      (Step.receive alice_joined letter alice_is_there)

posting_is_clean : IsCleanReach posting
unfolding to_be_bytes tag
posting_is_clean = (((tt, alice-IsKey), bob-IsKey), omega arith)

Reach-IsTypedSystem_example : IsTypedSystem (Steps.received alice_joined letter joined)
Reach-IsTypedSystem_example = Reach-IsTypedSystem none posting posting_is_clean
