-- ===== src/Examples/Joining.antt =====
-- A client that joins with the server's mesh key.
use dersp.Prelude.{ℕ, ◌≡◌, refl, true, some, List, [], ◌∷◌, replicate, arith, bytes_eq}
use dersp.Exec.{ok}
use dersp.Codec.Encode.{to_be_bytes}
use dersp.Net.{Stream, received}
use dersp.Proto.Messages.Written.{appended}
use dersp.Proto.Handshake.Server.{Connection}
use dersp.Proto.Handshake.Client.{exchange_keys}
use dersp.Proto.Handshake.Exchange.{session}
use dersp.Proto.Handshake.Accept.{connection}
use dersp.Service.State.{World}
use dersp.Service.Startup.{new_world}
use dersp.Service.Clients.{authorize}
use dersp.Service.Admission.{admitted}
use dersp.Service.Serving.{handle_client}
use dersp.Service.Joining.{handle_client-admits}
use dersp.Examples.Fixtures.{writing}
use dersp.Examples.Handshake.{
  glass_box, glass_box-IsSealing, parse-ReadsJson, get_request, get_request-IsUpgrade, services,
  server_secret, client_secret, in_pieces, pieces_together,
}

-- The mesh key is the letter K.
abbrev relay : World
relay = new_world (some (75 ∷ []))

handle_client-admits_example :
    (info : List ℕ) × (from' : Stream) × (left : List ℕ) × (socket : Connection) × (exchange_keys
        100 glass_box client_secret
        (some (75 ∷ []))
        (replicate 24 5)
        (session in_pieces [] writing)
      ≡ (ok (glass_box.public_of server_secret), session from' left (appended writing info)))
    × (handle_client services server_secret true 5 (record {
      socket = connection (received get_request ∷ received info ∷ []) writing 19;
      world = relay;
    })
        ≡ (
          ok true,
          record { socket = socket; world = admitted (glass_box.public_of client_secret) 5 relay },
        ))
unfolding authorize bytes_eq to_be_bytes
handle_client-admits_example =
    handle_client-admits services glass_box-IsSealing parse-ReadsJson server_secret client_secret
      (replicate 24 5) (some (75 ∷ [])) 100 19 in_pieces [] [] [] get_request writing writing 5
      relay true (omega arith) (omega arith) (omega arith) tt (omega arith) pieces_together refl
      get_request-IsUpgrade refl refl
