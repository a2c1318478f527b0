-- ===== src/Examples/Linking.antt =====
-- A link to another relay, opened (dersp/src/mesh_client.rs).
use dersp.Prelude.{
  ℕ, ◌≡◌, refl, true, Option, none, if◌then◌else◌, some, List, [], ◌∷◌, ◌++◌, take, drop, replicate,
  arith, bytes_eq,
}
use dersp.Exec.{Outcome, ok}
use dersp.Failure.{Failure}
use dersp.Codec.Encode.{to_be_bytes}
use dersp.Net.{Stream, received, pending}
use dersp.Proto.Data.FrameType.{FrameType}
use dersp.Proto.Data.Wire.RoundTrip.{wire_frame}
use dersp.Proto.ClientInfo.{plain_text}
use dersp.Proto.Messages.Written.{appended}
use dersp.Proto.Handshake.Exchange.{info_bytes, info_of}
use dersp.Proto.Handshake.Accept.{connection}
use dersp.MeshClient.Connect.{upgrade_request}
use dersp.MeshClient.Running.{greet, open_link}
use dersp.MeshClient.Opening.{link, open_link-greets}
use dersp.Examples.Fixtures.{writing}
use dersp.Examples.Handshake.{
  glass_box, glass_box-IsSealing, server_secret, client_secret, server_greeting,
}

-- `OK` stands for a whole response.
abbrev parse_response : List ℕ → Outcome Failure (Option ℕ)
parse_response bytes = if bytes_eq (take 2 bytes) (79 ∷ 75 ∷ []) then ok (some 2) else ok none

-- The rest of the greeting, and the server's info.
abbrev remaining : Stream
remaining = received (drop 10 server_greeting ++ wire_frame FrameType.server_info []) ∷ []

open_link-greets_example :
    (cipher : List ℕ) × (s' : Stream) × (left : List ℕ) × (glass_box.encrypt
        (glass_box.public_of server_secret)
        client_secret
        (replicate 24 5)
        (plain_text (some (75 ∷ [])))
      ≡ some cipher)
    × (open_link parse_response
          (49 ∷ [])
          (50 ∷ [])
          (greet 200 glass_box client_secret (75 ∷ []) (replicate 24 5) true)
          (connection (received ((79 ∷ 75 ∷ []) ++ take 10 server_greeting) ∷ remaining) writing 9)
        ≡ (
          ok tt,
          link s' left
              (appended writing (
                upgrade_request (49 ∷ []) (50 ∷ [])
                ++ (wire_frame FrameType.client_info (
                      info_bytes
                        (info_of (glass_box.public_of client_secret) (replicate 24 5) cipher))
                    ++ wire_frame FrameType.watch_conns [])))
              (some (glass_box.public_of server_secret)),
        ))
    × (left ++ pending s' ≡ [])
unfolding to_be_bytes bytes_eq
open_link-greets_example =
    open_link-greets glass_box glass_box-IsSealing parse_response (49 ∷ []) (50 ∷ []) server_secret
      client_secret (75 ∷ []) (replicate 24 5) 200 9 (79 ∷ 75 ∷ []) (take 10 server_greeting) []
      remaining writing (omega arith) refl (omega arith) (omega arith) tt (omega arith) refl refl
