-- ===== src/Examples/Clients.antt =====
-- The loops of a client.
use dersp.Prelude.{◌≡◌, refl, true, false, [], ◌∷◌, All, arith, List}
use dersp.Exec.{ok, panic}
use dersp.Channel.{WriteLoopCommand}
use dersp.Net.{received}
use dersp.InOut.{new_reader}
use dersp.Proto.Messages.Written.{appended}
use dersp.Client.ReadLoop.{read_loop}
use dersp.Client.WriteLoop.{write_loop}
use dersp.Client.Authentic.{IsAuthentic, read_loop-IsAuthentic}
use dersp.Client.Sending.{wire_commands, write_loop-wire_commands}
use dersp.MeshClient.Loops.{mesh_read_loop, mesh_write_loop}
use dersp.MeshClient.Relaying.{
  IsRelayed, mesh_read_loop-IsRelayed, wire_peers, mesh_write_loop-leading_peers,
}
use dersp.Client.Running.{run}
use dersp.Examples.Fixtures.{alice, bob, alice-IsKey, bob-IsKey, writing}

read_loop-IsAuthentic_example :
    All
      (IsAuthentic alice false 1)
      (read_loop 9 3 alice false 1 (record {
        connection =
            new_reader (
              received (9 ∷ 0 ∷ 0 ∷ 0 ∷ 32 ∷ bob.bytes)
              ∷ received (0x10 ∷ 0 ∷ 0 ∷ 0 ∷ 0 ∷ [])
              ∷ []);
        queued = [];
        service_alive = true;
      })).1.queued
read_loop-IsAuthentic_example =
    read_loop-IsAuthentic 9 3 alice false 1
      (new_reader
        (received (9 ∷ 0 ∷ 0 ∷ 0 ∷ 32 ∷ bob.bytes) ∷ received (0x10 ∷ 0 ∷ 0 ∷ 0 ∷ 0 ∷ []) ∷ []))
      true

-- A packet for the client, one for another, a peer and a stop.
abbrev four_commands : List WriteLoopCommand
four_commands =
    WriteLoopCommand.send_packet bob alice (7 ∷ [])
    ∷ WriteLoopCommand.send_packet alice bob (8 ∷ [])
    ∷ WriteLoopCommand.peer_present bob
    ∷ WriteLoopCommand.stop
    ∷ []

write_loop-wire_commands_example :
    write_loop alice true four_commands writing
    ≡ (ok tt, appended writing (wire_commands alice four_commands))
write_loop-wire_commands_example =
    write_loop-wire_commands alice true four_commands writing
      (
        (bob-IsKey, alice-IsKey, omega arith, refl),
        ((alice-IsKey, bob-IsKey, omega arith, refl), (bob-IsKey, (tt, tt))),
      )
      refl

mesh_read_loop-IsRelayed_example :
    All
      (IsRelayed 1)
      (mesh_read_loop 9 2 1 (record {
        connection = new_reader (received (9 ∷ 0 ∷ 0 ∷ 0 ∷ 32 ∷ bob.bytes) ∷ []);
        queued = [];
        service_alive = true;
      })).1.queued
mesh_read_loop-IsRelayed_example =
    mesh_read_loop-IsRelayed 9 2 1 (new_reader (received (9 ∷ 0 ∷ 0 ∷ 0 ∷ 32 ∷ bob.bytes) ∷ []))
      true

-- Two peers, and a packet for a client behind the other relay.
abbrev peers_and_packet : List WriteLoopCommand
peers_and_packet =
    WriteLoopCommand.peer_present alice
    ∷ WriteLoopCommand.peer_present bob
    ∷ WriteLoopCommand.send_packet alice bob (8 ∷ [])
    ∷ []

mesh_write_loop-leading_peers_example :
    mesh_write_loop peers_and_packet writing
    ≡ (panic, appended writing (wire_peers (alice ∷ bob ∷ [])))
mesh_write_loop-leading_peers_example =
    mesh_write_loop-leading_peers peers_and_packet writing (alice-IsKey, (bob-IsKey, tt)) refl

-- A stop ends the write loop of a client.
stopped :
    (run 9 2 true 1
      (WriteLoopCommand.stop ∷ WriteLoopCommand.peer_present bob ∷ [])
      (record { r = []; w = writing; pk = alice; can_mesh = true })).1
    ≡ writing
unfolding run write_loop
stopped = refl
