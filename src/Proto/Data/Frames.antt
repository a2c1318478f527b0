-- ===== src/Proto/Data/Frames.antt =====
-- The structs of dersp/src/proto/data.rs. A derived codec takes the fields in their order.
use dersp.Prelude.{ℕ, List, [], ◌∷◌, Bool, bytes_eq}
use dersp.Exec.{pure, ◌>>=◌}
use dersp.Codec.Read.{Decode}
use dersp.Codec.Types.{SizeWrapper, wrap}
use dersp.Codec.Encode.{
  Encode, ◌+?◌, encode_unit, encode_u8, encode_array, encode_vec, encode_size_wrapper, u32_size,
}
use dersp.Codec.Decode.{decode_u8, decode_u32, decode_array, decode_vec, decode_size_wrapper}
use dersp.Crypto.Keys.{PublicKey, encode_public_key, decode_public_key}
use dersp.Proto.Data.FrameType.{
  FrameType, server_key, client_info, server_info, forward_packet, encode_frame_type,
  decode_frame_type,
}

-- `struct Frame<T>`
pub record Frame (T : Type 0) : Type 0 where
  pub frame_type : FrameType
  pub inner : SizeWrapper T

unfoldable pub encode_frame : {T : Type 0} → Encode T → Encode (Frame T)
encode_frame encode f =
    encode_unit +? encode_frame_type f.frame_type +? encode_size_wrapper u32_size encode f.inner

unfoldable pub decode_frame : {T : Type 0} → Decode T → Decode (Frame T)
decode_frame decode = do
  ty ← decode_frame_type
  inner ← decode_size_wrapper decode_u32 decode
  pure (record { frame_type = ty; inner = inner })

-- Codecs of `Vec<u8>`
abbrev pub encode_bytes_vec : Encode (List ℕ)
encode_bytes_vec = encode_vec encode_u8

abbrev pub decode_bytes_vec : Decode (List ℕ)
decode_bytes_vec = decode_vec decode_u8

-- 8 bytes of magic message prefix
abbrev pub magic_bytes : List ℕ
magic_bytes = 0x44 ∷ 0x45 ∷ 0x52 ∷ 0x50 ∷ 0xF0 ∷ 0x9F ∷ 0x94 ∷ 0x91 ∷ []

pub record ServerKey : Type 0 where
  pub magic : List ℕ
  pub public_key : PublicKey

unfoldable pub encode_server_key : Encode ServerKey
encode_server_key s = encode_unit +? encode_array 8 s.magic +? encode_public_key s.public_key

unfoldable pub decode_server_key : Decode ServerKey
decode_server_key = do
  magic ← decode_array 8
  public_key ← decode_public_key
  pure (record { magic = magic; public_key = public_key })

-- `ServerKey::new`, `ServerKey::frame` and `ServerKey::validate_magic`
unfoldable pub new_server_key : PublicKey → ServerKey
new_server_key public_key = record { magic = magic_bytes; public_key = public_key }

unfoldable pub frame_server_key : ServerKey → Frame ServerKey
frame_server_key s = record { frame_type = server_key; inner = wrap s }

unfoldable pub validate_magic : ServerKey → Bool
validate_magic s = bytes_eq s.magic magic_bytes

pub record ClientInfo : Type 0 where
  pub public_key : PublicKey
  pub nonce : List ℕ
  pub cipher_text : List ℕ

unfoldable pub encode_client_info : Encode ClientInfo
encode_client_info c =
    encode_unit
    +? encode_public_key c.public_key
    +? encode_array 24 c.nonce
    +? encode_bytes_vec c.cipher_text

unfoldable pub decode_client_info : Decode ClientInfo
decode_client_info = do
  public_key ← decode_public_key
  nonce ← decode_array 24
  cipher_text ← decode_bytes_vec
  pure (record { public_key = public_key; nonce = nonce; cipher_text = cipher_text })

unfoldable pub frame_client_info : ClientInfo → Frame ClientInfo
frame_client_info c = record { frame_type = client_info; inner = wrap c }

-- `ServerInfo` and `WatchConns`: bytes without a meaning.
pub record ServerInfo : Type 0 where
  pub bytes : List ℕ

unfoldable pub encode_server_info : Encode ServerInfo
encode_server_info s = encode_unit +? encode_bytes_vec s.bytes

unfoldable pub decode_server_info : Decode ServerInfo
decode_server_info = do bytes ← decode_bytes_vec; pure (record { bytes = bytes })

abbrev pub default_server_info : ServerInfo
default_server_info = record { bytes = [] }

unfoldable pub frame_server_info : ServerInfo → Frame ServerInfo
frame_server_info s = record { frame_type = server_info; inner = wrap s }

pub record SendPacket : Type 0 where
  pub target : PublicKey
  pub payload : List ℕ

unfoldable pub encode_send_packet : Encode SendPacket
encode_send_packet p = encode_unit +? encode_public_key p.target +? encode_bytes_vec p.payload

unfoldable pub decode_send_packet : Decode SendPacket
decode_send_packet = do
  target ← decode_public_key
  payload ← decode_bytes_vec
  pure (record { target = target; payload = payload })

pub record RecvPacket : Type 0 where
  pub target : PublicKey
  pub payload : List ℕ

unfoldable pub encode_recv_packet : Encode RecvPacket
encode_recv_packet p = encode_unit +? encode_public_key p.target +? encode_bytes_vec p.payload

unfoldable pub decode_recv_packet : Decode RecvPacket
decode_recv_packet = do
  target ← decode_public_key
  payload ← decode_bytes_vec
  pure (record { target = target; payload = payload })

pub record ForwardPacket : Type 0 where
  pub source : PublicKey
  pub target : PublicKey
  pub payload : List ℕ

unfoldable pub encode_forward_packet : Encode ForwardPacket
encode_forward_packet p =
    encode_unit
    +? encode_public_key p.source
    +? encode_public_key p.target
    +? encode_bytes_vec p.payload

unfoldable pub decode_forward_packet : Decode ForwardPacket
decode_forward_packet = do
  source ← decode_public_key
  target ← decode_public_key
  payload ← decode_bytes_vec
  pure (record { source = source; target = target; payload = payload })

-- `ForwardPacket::new` and `ForwardPacket::frame`
abbrev pub new_forward_packet : PublicKey → PublicKey → List ℕ → ForwardPacket
new_forward_packet source target payload = record {
  source = source;
  target = target;
  payload = payload;
}

unfoldable pub frame_forward_packet : ForwardPacket → Frame ForwardPacket
frame_forward_packet p = record { frame_type = forward_packet; inner = wrap p }

pub record PeerPresent : Type 0 where
  pub public_key : PublicKey

unfoldable pub encode_peer_present : Encode PeerPresent
encode_peer_present p = encode_unit +? encode_public_key p.public_key

unfoldable pub decode_peer_present : Decode PeerPresent
decode_peer_present = do public_key ← decode_public_key; pure (record { public_key = public_key })

pub record WatchConns : Type 0 where
  pub bytes : List ℕ

unfoldable pub encode_watch_conns : Encode WatchConns
encode_watch_conns p = encode_unit +? encode_bytes_vec p.bytes

unfoldable pub decode_watch_conns : Decode WatchConns
decode_watch_conns = do bytes ← decode_bytes_vec; pure (record { bytes = bytes })

abbrev pub default_watch_conns : WatchConns
default_watch_conns = record { bytes = [] }

-- `struct Header`: only decoded.
pub record Header : Type 0 where
  pub frame_type : FrameType
  pub size : ℕ

unfoldable pub decode_header : Decode Header
decode_header = do
  ty ← decode_frame_type
  size ← decode_u32
  pure (record { frame_type = ty; size = size })
