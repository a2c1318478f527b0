-- ===== src/Examples/Vouching.antt =====
-- Handshakes of a client that sends more than its client info.
use dersp.Prelude.{ℕ, ◌≡◌, refl, true, some, List, [], ◌∷◌, ◌++◌, replicate, arith}
use dersp.Net.{received}
use dersp.Proto.Data.FrameType.{FrameType}
use dersp.Proto.Data.Frames.{ClientInfo}
use dersp.Proto.Data.Wire.RoundTrip.{wire_frame}
use dersp.Proto.ClientInfo.{ClientInfoPayload, plain_text}
use dersp.Proto.Handshake.Server.{handle_handshake}
use dersp.Proto.Handshake.Exchange.{info_bytes}
use dersp.Proto.Handshake.Accept.{connection}
use dersp.Proto.Handshake.Info.{IsSealed, handle_handshake-drops}
use dersp.Service.Startup.{new_world}
use dersp.Service.Serving.{Serving, handle_client}
use dersp.Service.Vouching.{IsServed, handle_client-IsServed}
use dersp.Examples.Fixtures.{alice, alice-IsKey, writing}
use dersp.Examples.Handshake.{
  glass_box-IsSealing, parse-ReadsJson, get_request, get_request-IsUpgrade, services, server_secret,
}

abbrev info : ClientInfo
info = record {
  public_key = alice;
  nonce = replicate 24 5;
  cipher_text = replicate 16 0 ++ plain_text (some (75 ∷ []));
}

abbrev payload : ClientInfoPayload
payload = record { version = 2; meshkey = 75 ∷ [] }

info-IsSealed : IsSealed services server_secret info payload
info-IsSealed = record {
  key = alice-IsKey;
  nonce = omega arith;
  fits = omega arith;
  text = plain_text (some (75 ∷ []));
  decrypts = refl;
  parses = parse-ReadsJson.reads (some (75 ∷ [])) (omega arith);
}

abbrev wire_info : List ℕ
wire_info = wire_frame FrameType.client_info (info_bytes info)

-- A WatchConns frame.
abbrev watch : List ℕ
watch = 0x10 ∷ 0 ∷ 0 ∷ 0 ∷ 0 ∷ []

handle_handshake-drops_example :
    handle_handshake services server_secret
      (connection (received get_request ∷ received (wire_info ++ watch) ∷ []) writing 19)
    ≡ handle_handshake services server_secret
        (connection (received get_request ∷ received wire_info ∷ []) writing 19)
handle_handshake-drops_example =
    handle_handshake-drops services server_secret info payload info-IsSealed [] 19 get_request
      writing (glass_box-IsSealing.public_of-IsKey server_secret) get_request-IsUpgrade refl watch
      (omega arith)

abbrev serving : Serving
serving = record {
  socket = connection (received get_request ∷ received (wire_info ++ watch) ∷ []) writing 19;
  world = new_world (some (75 ∷ []));
}

handle_client-IsServed_example :
    IsServed services server_secret 3 serving.world
      (handle_client services server_secret true 3 serving).1.world
handle_client-IsServed_example = handle_client-IsServed services server_secret true 3 serving
