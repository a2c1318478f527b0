-- ===== src/Proto/Handshake/Agreement.antt =====
-- Both sides of a handshake together (dersp/src/proto/mod.rs).
use dersp.Prelude.{
  ℕ, ◌+◌, ◌≤◌, ◌<◌, ◌≡◌, ◌≢◌, false, Option, none, some, List, [], ◌∷◌, ◌++◌, length, take,
  length-append, All, arith,
}
use dersp.Exec.{ok}
use dersp.Net.{Stream, Writer, received, pending, IsSound, reads_left}
use dersp.Crypto.Keys.{IsArray}
use dersp.Crypto.Secret.{SecretKey, IsSealing}
use dersp.Proto.Data.FrameType.{FrameType}
use dersp.Proto.Data.Wire.RoundTrip.{wire_frame}
use dersp.Proto.ClientInfo.{ClientInfoPayload, plain_text, json_head, json_tail}
use dersp.Proto.Messages.Written.{appended}
use dersp.Proto.Handshake.Server.{Services, ok_response, mesh_key, handle_handshake}
use dersp.Proto.Handshake.Client.{exchange_keys}
use dersp.Proto.Handshake.Exchange.{greeting, info_bytes, info_of, session, exchange_keys_lem}
use dersp.Proto.Handshake.Accept.{connection, IsUpgrade}
use dersp.Proto.Handshake.Info.{IsSealed, handle_handshake_lem}

-- A client without a mesh key sends an empty one.
abbrev pub text_of : Option (List ℕ) → List ℕ
text_of none = []
text_of (some meshkey) = meshkey

-- A printable ASCII character that stands for itself in a JSON string.
abbrev pub IsPlain : ℕ → Type 0
IsPlain b = (32 ≤ b) × (b < 127) × (b ≢ 34) × (b ≢ 92)

-- The JSON parser reads the text that a client writes, if its mesh key is plain.
pub record ReadsJson (parse_json : List ℕ → Option ClientInfoPayload) : Type 0 where
  pub reads :
      (meshkey : Option (List ℕ))
      → All IsPlain (text_of meshkey)
      → parse_json (plain_text meshkey) ≡ some (record { version = 2; meshkey = text_of meshkey })

pub length-plain_text :
    (meshkey : Option (List ℕ)) → length (plain_text meshkey) ≡ 29 + length (text_of meshkey)
length-plain_text none = omega arith
length-plain_text (some k) =
    omega (arith, length-append json_head (k ++ json_tail), length-append k json_tail)

module _ (services : Services) (sealing : IsSealing services.box)
    (json : ReadsJson services.parse_json) (s c : SecretKey) (nonce : List ℕ)
    (meshkey : Option (List ℕ)) (fuel n : ℕ) (from later : Stream) (front rest request : List ℕ)
    (w v : Writer) where
  -- A handshake on two connections that do not break: a client with a plain mesh key of at most
  -- 918 bytes, or with none, reads the server's greeting in whatever pieces it comes and ends
  -- with the server's public key; the server, sent an upgrade request in one piece and then what
  -- the client has written in one piece, ends with the client's public key and its mesh key (none
  -- if it is empty), having written what it takes of its HTTP answer, the greeting and an empty
  -- server info. The sealed box and the JSON parser are parameters with their documented
  -- behaviour, and fuel above the client's reads left is enough.
  pub handshake_agrees :
      IsArray 24 nonce
      → All IsPlain (text_of meshkey)
      → length (text_of meshkey) ≤ 918
      → IsSound from
      → reads_left from < fuel
      → front ++ pending from ≡ greeting (services.box.public_of s) ++ rest
      → w.is_broken ≡ false
      → IsUpgrade services request
      → v.is_broken ≡ false
      → (info : List ℕ) × (from' : Stream) × (left : List ℕ) × (exchange_keys fuel services.box c
            meshkey nonce
            (session from front w)
          ≡ (ok (services.box.public_of s), session from' left (appended w info)))
        × (handle_handshake services s (connection (received request ∷ received info ∷ later) v n)
            ≡ (
              ok (services.box.public_of c, mesh_key (text_of meshkey)),
              connection later
                  (appended
                    (appended
                      (appended v (take n ok_response))
                      (greeting (services.box.public_of s)))
                    (wire_frame FrameType.server_info []))
                  n,
            ))
  handshake_agrees random plain short sound enough greeted intact upgrade intact' =
      let size = length-plain_text meshkey in
      let (cipher, sealed, longer) =
        sealing.seals (services.box.public_of s) c nonce (plain_text meshkey)
          (omega (arith, size, short)) in
      let info = info_of (services.box.public_of c) nonce cipher in
      let payload : ClientInfoPayload = record { version = 2; meshkey = text_of meshkey } in
      let known : IsSealed services s info payload = record {
        key = sealing.public_of-IsKey c;
        nonce = random;
        fits = omega (arith, size, short, longer);
        text = plain_text meshkey;
        decrypts = sealing.opens s c nonce (plain_text meshkey) cipher random sealed;
        parses = json.reads meshkey plain;
      } in
      let (from', left, exchanged, _, _, _) =
        exchange_keys_lem services.box sealing s c nonce random fuel meshkey cipher from front rest
          w sealed (omega (arith, size, short, longer)) sound enough greeted intact in
      (
        wire_frame FrameType.client_info (info_bytes info),
        from',
        left,
        exchanged,
        handle_handshake_lem services s info payload known later n request v
            (sealing.public_of-IsKey s) upgrade intact',
      )
