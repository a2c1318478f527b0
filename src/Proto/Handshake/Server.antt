-- ===== src/Proto/Handshake/Server.antt =====
-- `handle_handshake` of dersp/src/proto/mod.rs and what it calls.
use dersp.Prelude.{
  ℕ, ◌+◌, ◌-◌, Bool, true, false, not, ◌&&◌, ◌||◌, Option, none, some, List, [], ◌∷◌, ◌++◌, length,
  take, replicate, ltb, leb, if◌then◌else◌, bytes_eq,
}
use dersp.Exec.{Outcome, ok, err, panic, stuck, Exec, pure, lift, ◌>>=◌, ◌>>◌}
use dersp.Failure.{Failure, http_failed, unexpected_message}
use dersp.Net.{Stream, Writer, read, write_all}
use dersp.Crypto.Keys.{PublicKey}
use dersp.Crypto.Secret.{SecretKey, Sealing}
use dersp.Proto.Data.FrameType.{FrameType, get_frame_type}
use dersp.Proto.Data.Frames.{
  ClientInfo, decode_frame, decode_client_info, encode_server_key, frame_server_key, new_server_key,
  encode_server_info, frame_server_info, default_server_info,
}
use dersp.Proto.ClientInfo.{ClientInfoPayload, complete}
use dersp.Proto.Messages.{write_frame, unframe}

abbrev upgrade_msg_size : ℕ
upgrade_msg_size = 4096

-- A header of a request: its name and its value, as `httparse` delivers them.
pub record HttpHeader : Type 0 where
  pub name : List ℕ
  pub value : List ℕ

-- What the handshake calls of other crates: `crypto_box`, `serde_json::from_slice`, and
-- `httparse::Request::parse`, which returns the start of the body of a complete request and leaves
-- 16 headers.
pub record Services : Type 0 where
  pub box : Sealing
  pub parse_json : List ℕ → Option ClientInfoPayload
  pub parse_request : List ℕ → Outcome Failure (Option ℕ) × List HttpHeader

-- Both directions of a connection, and how many bytes it takes of a single `write`.
pub record Connection : Type 0 where
  pub reader : Stream
  pub writer : Writer
  pub takes : ℕ

unfoldable pub on_reader : {A : Type 0} → Exec Failure Stream A → Exec Failure Connection A
on_reader m c = let (r, s) = m c.reader in (r, record c { reader = s })

unfoldable pub on_writer : {A : Type 0} → Exec Failure Writer A → Exec Failure Connection A
on_writer m c = let (r, w) = m c.writer in (r, record c { writer = w })

-- `rw.read(&mut buf).await?` into an array of zeros: the array, and how much was read.
unfoldable pub read_array : ℕ → Exec Failure Connection (List ℕ × ℕ)
unfolding on_reader read
read_array size = do
  received ← on_reader (read size)
  pure (received ++ replicate (size - length received) 0, length received)

-- `rw.write(bytes).await?`, which need not take all of the bytes.
unfoldable pub write_once : List ℕ → Exec Failure Connection (Unit {0})
unfolding on_writer write_all
write_once bytes c = on_writer (write_all (take c.takes bytes)) c

-- `to_ascii_lowercase`
abbrev to_ascii_lowercase : List ℕ → List ℕ
to_ascii_lowercase [] = []
to_ascii_lowercase (b ∷ bs) = (if leb 65 b && leb b 90 then b + 32 else b) ∷ to_ascii_lowercase bs

-- `Upgrade`, `Connection`, `websocket`, `derp` and `upgrade`
abbrev pub upgrade_name : List ℕ
upgrade_name = 85 ∷ 112 ∷ 103 ∷ 114 ∷ 97 ∷ 100 ∷ 101 ∷ []

abbrev connection_name : List ℕ
connection_name = 67 ∷ 111 ∷ 110 ∷ 110 ∷ 101 ∷ 99 ∷ 116 ∷ 105 ∷ 111 ∷ 110 ∷ []

abbrev websocket : List ℕ
websocket = 119 ∷ 101 ∷ 98 ∷ 115 ∷ 111 ∷ 99 ∷ 107 ∷ 101 ∷ 116 ∷ []

abbrev derp : List ℕ
derp = 100 ∷ 101 ∷ 114 ∷ 112 ∷ []

abbrev pub upgrade : List ℕ
upgrade = 117 ∷ 112 ∷ 103 ∷ 114 ∷ 97 ∷ 100 ∷ 101 ∷ []

-- The checks on one header. A value that is not UTF-8 fails like one that is none of the words.
unfoldable pub is_expected : HttpHeader → Bool
is_expected h =
    let value = to_ascii_lowercase h.value in
    (not (bytes_eq h.name upgrade_name) || (bytes_eq value websocket || bytes_eq value derp))
    && (not (bytes_eq h.name connection_name) || bytes_eq value upgrade)

unfoldable pub validate_headers : List HttpHeader → Outcome Failure (Unit {0})
validate_headers [] = ok tt
validate_headers (h ∷ hs) =
    let rest = validate_headers hs in if is_expected h then rest else err http_failed

-- `ensure!(condition)`
abbrev ensure : Bool → Outcome Failure (Unit {0})
ensure true = ok tt
ensure false = err http_failed

-- The slice `&buf[body_start..]`, which is not used, after the headers are checked.
unfoldable pub slice_body : ℕ → Outcome Failure (Unit {0}) → Outcome Failure (Unit {0})
slice_body body_start (ok t) = if leb body_start upgrade_msg_size then ok tt else panic
slice_body body_start (err e) = err e
slice_body body_start panic = panic
slice_body body_start stuck = stuck

-- `req.parse(&buf)?`, `ensure!(body_start.is_complete())`, the headers and the body.
unfoldable pub check_request :
    Outcome Failure (Option ℕ) × List HttpHeader → Outcome Failure (Unit {0})
unfolding slice_body
check_request (ok (some body_start), headers) = slice_body body_start (validate_headers headers)
check_request (ok none, headers) = err http_failed
check_request (err e, headers) = err http_failed
check_request (panic, headers) = panic
check_request (stuck, headers) = stuck

-- `HTTP/1.1 200 OK` and two line ends
abbrev pub ok_response : List ℕ
ok_response =
    72 ∷ 84 ∷ 84 ∷ 80 ∷ 47 ∷ 49 ∷ 46 ∷ 49 ∷ 32 ∷ 50 ∷ 48 ∷ 48 ∷ 32 ∷ 79 ∷ 75 ∷ 13 ∷ 10 ∷ 13 ∷ 10
    ∷ []

-- The whole array is parsed, zeros included.
unfoldable pub finalize_http_phase : Services → Exec Failure Connection (Unit {0})
unfolding read_array check_request write_once
finalize_http_phase services = do
  (buf, n) ← read_array upgrade_msg_size
  lift (ensure (ltb 0 n))
  lift (ensure (ltb n upgrade_msg_size))
  lift (check_request (services.parse_request buf))
  write_once ok_response

unfoldable pub write_server_key : PublicKey → Exec Failure Connection (Unit {0})
unfolding on_writer
write_server_key public_key =
    on_writer (write_frame encode_server_key (frame_server_key (new_server_key public_key)))

-- `None` for an empty mesh key.
abbrev pub mesh_key : List ℕ → Option (List ℕ)
mesh_key [] = none
mesh_key (b ∷ bs) = some (b ∷ bs)

-- The decoding half of `read_client_info`, by the type of the frame in the array.
unfoldable pub open_client_info : FrameType → List ℕ → Outcome Failure ClientInfo
open_client_info FrameType.client_info buf = unframe (decode_frame decode_client_info buf).0
open_client_info ty buf = err (unexpected_message ty)

unfoldable pub read_client_info :
    Services → SecretKey → Exec Failure Connection (PublicKey × Option (List ℕ))
unfolding read_array open_client_info
read_client_info services sk = do
  (buf, n) ← read_array 1024
  client_info ← lift (open_client_info (get_frame_type buf) buf)
  complete_info ← lift (complete services.box services.parse_json client_info sk)
  pure (complete_info.public_key, mesh_key complete_info.payload.meshkey)

unfoldable pub write_server_info : Exec Failure Connection (Unit {0})
unfolding on_writer
write_server_info =
    on_writer (write_frame encode_server_info (frame_server_info default_server_info))

unfoldable pub handle_handshake :
    Services → SecretKey → Exec Failure Connection (PublicKey × Option (List ℕ))
handle_handshake services sk = do
  finalize_http_phase services
  write_server_key (services.box.public_of sk)
  (pk, meshkey) ← read_client_info services sk
  write_server_info
  pure (pk, meshkey)
