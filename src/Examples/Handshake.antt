-- ===== src/Examples/Handshake.antt =====
-- The handshake of dersp/src/proto/mod.rs with concrete services.
use dersp.Prelude.{
  ℕ, zero, suc, ◌%◌, ◌≡◌, refl, sym, ap, false, Option, none, some, List, [], ◌∷◌, ◌++◌, take, drop,
  replicate, All, arith, ◌==◌, if◌then◌else◌, bytes_eq, length-append,
}
use dersp.Exec.{Outcome, ok, err}
use dersp.Failure.{Failure, http_failed}
use dersp.Codec.Encode.{to_be_bytes}
use dersp.Net.{Stream, received}
use dersp.Crypto.Keys.{IsArray}
use dersp.Crypto.Secret.{SecretKey, Sealing, IsSealing}
use dersp.Proto.Data.FrameType.{FrameType}
use dersp.Proto.Data.Wire.RoundTrip.{wire_frame}
use dersp.Proto.ClientInfo.{ClientInfoPayload, plain_text, json_head, json_tail}
use dersp.Proto.Messages.Written.{appended}
use dersp.Proto.Handshake.Server.{
  Services, HttpHeader, ok_response, handle_handshake, validate_headers, is_expected, upgrade_name,
}
use dersp.Proto.Handshake.Client.{exchange_keys}
use dersp.Proto.Handshake.Exchange.{greeting, session}
use dersp.Proto.Handshake.Accept.{connection, IsUpgrade}
use dersp.Proto.Handshake.Agreement.{IsPlain, ReadsJson, text_of, handshake_agrees}
use dersp.Examples.Fixtures.{writing}

-- The first `n` bytes of a list, filled up with zeros.
abbrev fit : ℕ → List ℕ → List ℕ
fit zero bs = []
fit (suc n) [] = 0 ∷ fit n []
fit (suc n) (b ∷ bs) = b % 256 ∷ fit n bs

fit-IsArray : (n : ℕ) (bs : List ℕ) → IsArray n (fit n bs)
fit-IsArray zero bs = record { size = refl; in_range = tt }
fit-IsArray (suc n) [] =
    let rest = fit-IsArray n [] in
    record { size = ap suc rest.size; in_range = (omega arith, rest.in_range) }
fit-IsArray (suc n) (b ∷ bs) =
    let rest = fit-IsArray n bs in
    record { size = ap suc rest.size; in_range = (omega arith, rest.in_range) }

-- A box that hides nothing.
abbrev pub glass_box : Sealing
glass_box = record {
  public_of = λ s. record { bytes = fit 32 s.bytes };
  encrypt = λ k s nonce text. some (replicate 16 0 ++ text);
  decrypt = λ k s nonce cipher. some (drop 16 cipher);
}

pub glass_box-IsSealing : IsSealing glass_box
glass_box-IsSealing = record {
  public_of-IsKey = λ s. fit-IsArray 32 s.bytes;
  seals = λ k s nonce text small.
      (replicate 16 0 ++ text, refl, omega (arith, length-append (replicate 16 0) text));
  opens = λ s t nonce text cipher random sealed.
      let same : replicate 16 0 ++ text ≡ cipher = cc sealed in
      ap (λ xs. some (drop 16 xs)) (sym same);
}

abbrev until_quote : List ℕ → List ℕ
until_quote [] = []
until_quote (b ∷ bs) = let rest = until_quote bs in if b == 34 then [] else b ∷ rest

until_quote-append : (k : List ℕ) → All IsPlain k → until_quote (k ++ json_tail) ≡ k
until_quote-append [] plain = refl
until_quote-append (b ∷ bs) ((_, _, other, _), plain) =
    let no_quote : (b == 34) ≡ false = ground (arith, other) in
    rw no_quote (ap (λ r. b ∷ r) (until_quote-append bs plain))

abbrev parse : List ℕ → Option ClientInfoPayload
parse xs =
    if bytes_eq (take 27 xs) json_head
    then some (record { version = 2; meshkey = until_quote (drop 27 xs) })
    else none

pub parse-ReadsJson : ReadsJson parse
parse-ReadsJson = record { reads = on_key }
  where
    on_key :
        (meshkey : Option (List ℕ))
        → All IsPlain (text_of meshkey)
        → parse (plain_text meshkey) ≡ some (record { version = 2; meshkey = text_of meshkey })
    on_key none plain = unfold bytes_eq in refl
    on_key (some k) plain =
        unfold bytes_eq in
        ap (λ key. some (record { version = 2; meshkey = key })) (until_quote-append k plain)

-- `Upgrade: DERP`
abbrev upgrade_header : HttpHeader
upgrade_header = record { name = upgrade_name; value = 68 ∷ 69 ∷ 82 ∷ 80 ∷ [] }

-- `GET /` stands for a whole request.
abbrev pub get_request : List ℕ
get_request = 71 ∷ 69 ∷ 84 ∷ 32 ∷ 47 ∷ []

abbrev parse_request : List ℕ → Outcome Failure (Option ℕ) × List HttpHeader
parse_request xs =
    if bytes_eq (take 5 xs) get_request
    then (ok (some 5), upgrade_header ∷ [])
    else (err http_failed, [])

abbrev pub services : Services
services = record { box = glass_box; parse_json = parse; parse_request = parse_request }

pub get_request-IsUpgrade : IsUpgrade services get_request
get_request-IsUpgrade = record {
  nonempty = omega arith;
  fits = omega arith;
  body_start = 5;
  headers = upgrade_header ∷ [];
  parses = unfold bytes_eq in refl;
  in_array = omega arith;
  expected = unfold validate_headers is_expected bytes_eq in refl;
}

abbrev pub server_secret : SecretKey
server_secret = record { bytes = replicate 32 3 }

abbrev pub client_secret : SecretKey
client_secret = record { bytes = replicate 32 4 }

abbrev pub server_greeting : List ℕ
server_greeting = greeting (glass_box.public_of server_secret)

-- The greeting in two pieces.
abbrev pub in_pieces : Stream
in_pieces = received (take 10 server_greeting) ∷ received (drop 10 server_greeting) ∷ []

pub pieces_together :
    take 10 server_greeting ++ (drop 10 server_greeting ++ []) ≡ server_greeting ++ []
unfolding to_be_bytes
pieces_together = refl

handshake_agrees_example :
    (info : List ℕ) × (from' : Stream) × (left : List ℕ) × (exchange_keys 100 glass_box
        client_secret
        (some (75 ∷ []))
        (replicate 24 5)
        (session in_pieces [] writing)
      ≡ (ok (glass_box.public_of server_secret), session from' left (appended writing info)))
    × (handle_handshake services server_secret
          (connection (received get_request ∷ received info ∷ []) writing 19)
        ≡ (
          ok (glass_box.public_of client_secret, some (75 ∷ [])),
          connection []
              (appended
                (appended (appended writing ok_response) server_greeting)
                (wire_frame FrameType.server_info []))
              19,
        ))
unfolding to_be_bytes
handshake_agrees_example =
    handshake_agrees services glass_box-IsSealing parse-ReadsJson server_secret client_secret
      (replicate 24 5) (some (75 ∷ [])) 100 19 in_pieces [] [] [] get_request writing writing
      (omega arith) (omega arith) (omega arith) tt (omega arith) pieces_together refl
      get_request-IsUpgrade refl
