-- ===== src/Service/Joining.antt =====
-- A client's connection as a whole: the handshake of both sides and the admission
-- (`handle_client` of dersp/src/service.rs with `exchange_keys` of dersp/src/proto/mod.rs).
use dersp.Prelude.{ℕ, ◌≤◌, ◌<◌, ◌≡◌, false, true, Bool, Option, List, ◌∷◌, ◌++◌, length, All}
use dersp.Exec.{ok}
use dersp.Net.{Stream, Writer, received, pending, IsSound, reads_left}
use dersp.Crypto.Keys.{IsArray, PublicKey}
use dersp.Crypto.Secret.{SecretKey, IsSealing}
use dersp.Proto.Messages.Written.{appended}
use dersp.Proto.Handshake.Server.{Connection, handle_handshake, Services, mesh_key, Connection}
use dersp.Proto.Handshake.Client.{exchange_keys}
use dersp.Proto.Handshake.Exchange.{greeting, session}
use dersp.Proto.Handshake.Accept.{connection, IsUpgrade}
use dersp.Proto.Handshake.Agreement.{IsPlain, ReadsJson, text_of, handshake_agrees}
use dersp.Channel.{Sink}
use dersp.Service.State.{World}
use dersp.Service.Clients.{authorize}
use dersp.Service.Admission.{admitted, add_new_client-done}
use dersp.Service.Serving.{handle_client}

-- After a handshake that ends with a key and a mesh key, the client is admitted under them.
handle_client_lem :
    (services : Services) (s : SecretKey) (sink : Sink) (before after : Connection) (pk : PublicKey)
    (meshkey : Option (List ℕ)) (u : World) (can_mesh : Bool)
    → handle_handshake services s before ≡ (ok (pk, meshkey), after)
    → authorize u.service.meshkey meshkey ≡ ok can_mesh
    → handle_client services s true sink (record { socket = before; world = u })
      ≡ (ok can_mesh, record { socket = after; world = admitted pk sink u })
unfolding handle_client
handle_client_lem services s sink before after pk meshkey u can_mesh shaken allowed =
    rw (shaken, add_new_client-done pk meshkey can_mesh sink u allowed)

module _ (services : Services) (sealing : IsSealing services.box)
    (json : ReadsJson services.parse_json) (s c : SecretKey) (nonce : List ℕ)
    (meshkey : Option (List ℕ)) (fuel n : ℕ) (from later : Stream) (front rest request : List ℕ)
    (w v : Writer) (sink : Sink) (u : World) (can_mesh : Bool) where
  -- A client that runs its half of a handshake, under the conditions of the handshake's
  -- agreement, against `handle_client` on a socket with a peer address: if the mesh keys
  -- authorize what it sent, handle_client ends well with whether it may mesh, and the service is
  -- the one before with the client's key routed to its new channel, that channel open, and one
  -- task that tells each mesh peer of it.
  pub handle_client-admits :
      IsArray 24 nonce
      → All IsPlain (text_of meshkey)
      → length (text_of meshkey) ≤ 918
      → IsSound from
      → reads_left from < fuel
      → front ++ pending from ≡ greeting (services.box.public_of s) ++ rest
      → w.is_broken ≡ false
      → IsUpgrade services request
      → v.is_broken ≡ false
      → authorize u.service.meshkey (mesh_key (text_of meshkey)) ≡ ok can_mesh
      → (info : List ℕ) × (from' : Stream) × (left : List ℕ) × (socket : Connection)
        × (exchange_keys fuel services.box c meshkey nonce (session from front w)
            ≡ (ok (services.box.public_of s), session from' left (appended w info)))
        × (handle_client services s true sink (record {
          socket = connection (received request ∷ received info ∷ later) v n;
          world = u;
        })
            ≡ (
              ok can_mesh,
              record { socket = socket; world = admitted (services.box.public_of c) sink u },
            ))
  handle_client-admits random plain short sound enough greeted intact upgrade intact' allowed =
      let (info, from', left, exchanged, handled) =
        handshake_agrees services sealing json s c nonce meshkey fuel n from later front rest
          request w v random plain short sound enough greeted intact upgrade intact' in
      (
        info,
        from',
        left,
        _,
        exchanged,
        handle_client_lem services s sink _ _ _ _ u can_mesh handled allowed,
      )
