-- ===== src/Service/Commands.antt =====
-- `command_loop` of dersp/src/service.rs.
use dersp.Prelude.{ℕ, Option, none, some, List, [], ◌∷◌, if◌then◌else◌}
use dersp.Exec.{Exec, ok, pure, ◌>>◌}
use dersp.Failure.{Failure}
use dersp.Crypto.Keys.{PublicKey}
use dersp.KeyMap.{KeyMap, get, insert, contains_key, keys}
use dersp.Channel.{Sink, WriteLoopCommand, ServiceCommand, Delivery}
use dersp.Service.State.{World, send, spawn}

-- `.filter(|pk| !service.mesh.contains_key(pk))`
unfoldable pub not_meshed : KeyMap Sink → List PublicKey → List PublicKey
not_meshed mesh [] = []
not_meshed mesh (pk ∷ pks) =
    let rest = not_meshed mesh pks in if contains_key pk mesh then rest else pk ∷ rest

-- The messages that `notify_about_all_clients` sends.
unfoldable pub notifications : Sink → List PublicKey → List Delivery
notifications mesh_sink [] = []
notifications mesh_sink (pk ∷ pks) =
    (mesh_sink, WriteLoopCommand.peer_present pk) ∷ notifications mesh_sink pks

unfoldable notify_about_all_clients : Sink → List PublicKey → Exec Failure World (Unit {0})
unfolding notifications spawn
notify_about_all_clients mesh_sink clients_pk = spawn (notifications mesh_sink clients_pk)

-- The arms of the `match` in the loop, but `_Stop`.
unfoldable forward : Option Sink → PublicKey → PublicKey → List ℕ → Exec Failure World (Unit {0})
forward none source target payload = pure tt
forward (some sink) source target payload =
    send sink (WriteLoopCommand.send_packet source target payload)

unfoldable pub route : PublicKey → PublicKey → List ℕ → Exec Failure World (Unit {0})
unfolding forward send
route source target payload w = forward (get target w.service.peers_sinks) source target payload w

unfoldable pub subscribe : PublicKey → Sink → Exec Failure World (Unit {0})
unfolding notify_about_all_clients not_meshed
subscribe mesh_peer_pk mesh_sink w =
    let mesh' = insert mesh_peer_pk mesh_sink w.service.mesh in
    let w' = record w { service = record w.service { mesh = mesh' } } in
    let current_peers = not_meshed mesh' (keys w.service.peers_sinks) in
    notify_about_all_clients mesh_sink current_peers w'

-- `Entry::Occupied` is left alone, `Entry::Vacant` is filled.
unfoldable pub add_peer : PublicKey → Sink → KeyMap Sink → KeyMap Sink
add_peer pk sink peers = if contains_key pk peers then peers else insert pk sink peers

unfoldable pub learn_peer : PublicKey → Sink → Exec Failure World (Unit {0})
unfolding add_peer
learn_peer pk sink w = (
  ok tt,
  record w { service = record w.service { peers_sinks = add_peer pk sink w.service.peers_sinks } },
)

-- The loop over the commands in the order of the queue; it ends with the queue.
unfoldable pub command_loop : List ServiceCommand → Exec Failure World (Unit {0})
unfolding route subscribe learn_peer
command_loop [] = pure tt
command_loop (ServiceCommand.stop ∷ rest) = pure tt
command_loop (ServiceCommand.send_packet source target payload ∷ rest) =
    route source target payload >> command_loop rest
command_loop (ServiceCommand.subscribe_for_peer_changes pk sink ∷ rest) =
    subscribe pk sink >> command_loop rest
command_loop (ServiceCommand.peer_present pk sink ∷ rest) = learn_peer pk sink >> command_loop rest
