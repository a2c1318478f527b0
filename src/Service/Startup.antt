-- ===== src/Service/Startup.antt =====
-- `DerpService::new` of dersp/src/service.rs. The command loop is spawned before the addresses are
-- tried, and the read loops of links that have started send it commands meanwhile.
use dersp.Prelude.{ℕ, false, Option, none, some, List, [], ◌∷◌, ◌==◌, ◌||◌}
use dersp.Exec.{Exec, err, pure, ◌>>◌, ok}
use dersp.Failure.{Failure}
use dersp.Crypto.Keys.{PublicKey}
use dersp.KeyMap.{insert}
use dersp.Channel.{Sink}
use dersp.Service.State.{World}

-- What an address of `config.mesh_peers` comes to: `MeshClient::new` fails, `start` fails, or `start`
-- returns the sender of the new channel and the other relay's key.
pub data Attempt : Type 0 where
  unresolved : Failure → Attempt
  failed : Failure → Attempt
  linked : Sink → PublicKey → Attempt

-- An address, and what the tasks that are already spawned do to the shared state while it is tried.
abbrev pub Round : Type 0
Round = Attempt × (World → World)

-- The state that is shared before the command loop is spawned.
abbrev pub new_world : Option (List ℕ) → World
new_world meshkey = record {
  service = record { peers_sinks = []; mesh = []; meshkey = meshkey };
  open_sinks = λ s. false;
  sent = [];
  tasks = [];
}

-- `ret.write().await.mesh.insert(mesh_peer_pk, sender)`
unfoldable pub add_link : Sink → PublicKey → World → World
add_link sender mesh_peer_pk w = record w {
  service = record w.service { mesh = insert mesh_peer_pk sender w.service.mesh };
}

-- `MeshClient::start` has made its channel and kept the receiver.
unfoldable pub start_link : Sink → World → World
start_link sender w = record w { open_sinks = λ s. s == sender || w.open_sinks s }

-- The body of the loop over the addresses: only a `start` that fails is passed over.
unfoldable pub connect_peer : Attempt → (World → World) → Exec Failure World (Unit {0})
unfolding add_link start_link
connect_peer (unresolved e) meanwhile w = (err e, meanwhile w)
connect_peer (failed e) meanwhile w = (ok tt, meanwhile w)
connect_peer (linked sender mesh_peer_pk) meanwhile w =
    (ok tt, add_link sender mesh_peer_pk (meanwhile (start_link sender w)))

unfoldable pub connect_peers : List Round → Exec Failure World (Unit {0})
unfolding connect_peer
connect_peers [] = pure tt
connect_peers ((attempt, meanwhile) ∷ rounds) =
    connect_peer attempt meanwhile >> connect_peers rounds

-- Without a mesh key the addresses are ignored.
unfoldable pub new : Option (List ℕ) → List Round → Exec Failure World (Unit {0})
unfolding connect_peers
new none rounds w = (ok tt, new_world none)
new (some meshkey) rounds w = connect_peers rounds (new_world (some meshkey))
