-- ===== src/Examples/Delivery.antt =====
-- A packet from one client to another.
use dersp.Prelude.{ℕ, ◌≡◌, ◌++◌, refl, false, List, [], ◌∷◌, arith, replicate, some, true}
use dersp.Exec.{ok}
use dersp.Crypto.Keys.{PublicKey, key_eq}
use dersp.Service.State.{World}
use dersp.KeyMap.{get}
use dersp.Channel.{ServiceCommand, WriteLoopCommand}
use dersp.Client.ReadLoop.{on_message}
use dersp.Client.WriteLoop.{write_loop}
use dersp.Client.Delivery.{frame_message}
use dersp.Service.Commands.{command_loop}
use dersp.Proto.Data.FrameType
use dersp.Proto.Data.Frames.{decode_frame, decode_recv_packet}
use dersp.Proto.Data.Wire.RoundTrip.{wire_frame}
use dersp.Proto.Messages.Written.{appended}
use dersp.EndToEnd.{packet_arrives, received_frame}
use dersp.EndToEnd.Crossing.{Announces, Forwards, Arrives, packet_crosses}
use dersp.Examples.Fixtures.{alice, bob, alice-IsKey, bob-IsKey, connected, reading, writing}

abbrev payload : List ℕ
payload = 7 ∷ 8 ∷ []

abbrev command : ServiceCommand
command = ServiceCommand.send_packet alice bob payload

abbrev delivered : WriteLoopCommand
delivered = WriteLoopCommand.send_packet alice bob payload

abbrev bytes : List ℕ
bytes = wire_frame FrameType.recv_packet (bob.bytes ++ payload)

packet_arrives_example :
    (on_message alice false 1 FrameType.send_packet
        (frame_message FrameType.send_packet (bob.bytes ++ payload))
        reading
      ≡ (ok tt, record reading { queued = command ∷ [] }))
    × (command_loop (command ∷ []) connected
        ≡ (ok tt, record connected { sent = (2, delivered) ∷ [] }))
    × (write_loop bob false (delivered ∷ []) writing ≡ (ok tt, appended writing bytes))
    × (decode_frame decode_recv_packet bytes ≡ (ok (received_frame bob payload), []))
unfolding get key_eq
packet_arrives_example =
    packet_arrives alice bob payload 2 false false 1 reading connected writing bob-IsKey
      (omega arith) refl refl refl refl

-- Bob is connected to another relay, which is linked to this one with the key `relay`.
abbrev relay : PublicKey
relay = record { bytes = replicate 32 3 }

abbrev alone : World
alone = record {
  service = record {
    peers_sinks = (alice, 1) ∷ [];
    mesh = (relay, 4) ∷ [];
    meshkey = some (7 ∷ []);
  };
  open_sinks = λ s. true;
  sent = [];
  tasks = [];
}

packet_crosses_example :
    Announces alice bob relay payload 4 2 1 5 false false alone connected reading reading reading
      writing writing writing
    × Forwards alice bob relay payload 4 2 1 5 false false alone connected reading reading reading
        writing writing writing
    × Arrives alice bob relay payload 4 2 1 5 false false alone connected reading reading reading
        writing writing writing
unfolding get key_eq
packet_crosses_example =
    packet_crosses alice bob relay payload 4 2 1 5 false false alone connected reading reading
      reading writing writing writing alice-IsKey bob-IsKey (omega arith) refl refl refl refl refl
      refl refl refl refl refl refl
