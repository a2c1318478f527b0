-- ===== src/Service/Clients.antt =====
-- `add_new_client` and `notify_all_mesh_peers` of dersp/src/service.rs.
use dersp.Prelude.{
  ℕ, Bool, true, false, Option, none, some, List, [], ◌∷◌, ◌==◌, ◌||◌, bytes_eq, if◌then◌else◌,
}
use dersp.Exec.{Exec, Outcome, ok, err, pure, raise, lift, ◌>>=◌, ◌>>◌}
use dersp.Failure.{Failure, mesh_refused, io_failed}
use dersp.Crypto.Keys.{PublicKey}
use dersp.KeyMap.{KeyMap, insert}
use dersp.Channel.{Sink, WriteLoopCommand, Delivery}
use dersp.Service.State.{World, spawn}

-- The `match` on the two mesh keys: whether the client may mesh.
unfoldable pub authorize : Option (List ℕ) → Option (List ℕ) → Outcome Failure Bool
authorize none none = ok false
authorize none (some client_meshkey) = err mesh_refused
authorize (some server_meshkey) none = ok false
authorize (some server_meshkey) (some client_meshkey) =
    if bytes_eq server_meshkey client_meshkey then ok true else err mesh_refused

-- The messages that `notify_all_mesh_peers` sends, to every mesh peer.
unfoldable pub mesh_notifications : PublicKey → KeyMap Sink → List Delivery
mesh_notifications client_pk [] = []
mesh_notifications client_pk ((peer, sink) ∷ mesh) =
    (sink, WriteLoopCommand.peer_present client_pk) ∷ mesh_notifications client_pk mesh

unfoldable notify_all_mesh_peers : PublicKey → Exec Failure World (Unit {0})
unfolding mesh_notifications spawn
notify_all_mesh_peers client_pk w = spawn (mesh_notifications client_pk w.service.mesh) w

-- The new client's loops have started: the receiver of `sink` is alive.
unfoldable start_client : PublicKey → Sink → Exec Failure World (Unit {0})
start_client client_pk sink w = (
  ok tt,
  record w {
    service = record w.service { peers_sinks = insert client_pk sink w.service.peers_sinks };
    open_sinks = λ s. s == sink || w.open_sinks s;
  },
)

-- `Client::new(socket, …)?` asks the socket for its peer's address, which may fail.
unfoldable check_peer_addr : Bool → Exec Failure World (Unit {0})
check_peer_addr true = pure tt
check_peer_addr false = raise io_failed

-- `sink` is the sender of the channel that `Client::run` makes for the new client.
unfoldable pub add_new_client : Bool → PublicKey → Option (List ℕ) → Sink → Exec Failure World Bool
unfolding check_peer_addr start_client notify_all_mesh_peers
add_new_client has_peer_addr client_pk meshkey sink w =
    (do
      can_mesh ← lift (authorize w.service.meshkey meshkey)
      check_peer_addr has_peer_addr
      start_client client_pk sink
      notify_all_mesh_peers client_pk
      pure can_mesh)
      w
