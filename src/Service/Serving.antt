-- ===== src/Service/Serving.antt =====
-- `handle_client` of dersp/src/service.rs: a handshake, and the admission of the client.
use dersp.Prelude.{Bool}
use dersp.Exec.{Exec, ◌>>=◌}
use dersp.Failure.{Failure}
use dersp.Crypto.Secret.{SecretKey}
use dersp.Channel.{Sink}
use dersp.Proto.Handshake.Server.{Connection, Services, handle_handshake}
use dersp.Service.State.{World}
use dersp.Service.Clients.{add_new_client}

-- A client's socket and the service.
pub record Serving : Type 0 where
  pub socket : Connection
  pub world : World

unfoldable pub on_socket : {A : Type 0} → Exec Failure Connection A → Exec Failure Serving A
on_socket m s = let (r, c) = m s.socket in (r, record s { socket = c })

unfoldable pub on_world : {A : Type 0} → Exec Failure World A → Exec Failure Serving A
on_world m s = let (r, w) = m s.world in (r, record s { world = w })

-- `sk` is the key that is generated for the handshake, and `sink` the sender of the channel that is
-- made for the client. The result is whether the client may mesh.
unfoldable pub handle_client : Services → SecretKey → Bool → Sink → Exec Failure Serving Bool
unfolding on_socket on_world
handle_client services sk has_peer_addr sink = do
  (client_pk, meshkey) ← on_socket (handle_handshake services sk)
  on_world (add_new_client has_peer_addr client_pk meshkey sink)
