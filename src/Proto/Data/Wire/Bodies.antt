-- ===== src/Proto/Data/Wire/Bodies.antt =====
-- The structs of dersp/src/proto/data.rs that stand inside a frame, as one family.
use dersp.Prelude.{ℕ, ◌^◌, ◌<◌, ◌≡◌, List, ◌++◌, length, []}
use dersp.Exec.{ok}
use dersp.Codec.Read.{Decode}
use dersp.Codec.Write.{vec_buffer}
use dersp.Codec.Encode.{Encode}
use dersp.Crypto.Keys.{IsKey, IsArray}
use dersp.Proto.Data.Frames.{
  Frame, encode_frame, decode_frame, ServerKey, encode_server_key, decode_server_key, ClientInfo,
  encode_client_info, decode_client_info, ServerInfo, encode_server_info, decode_server_info,
  SendPacket, encode_send_packet, decode_send_packet, RecvPacket, encode_recv_packet,
  decode_recv_packet, ForwardPacket, encode_forward_packet, decode_forward_packet, PeerPresent,
  encode_peer_present, decode_peer_present, WatchConns, encode_watch_conns, decode_watch_conns,
}
use dersp.Proto.Data.Wire.Codecs.{
  IsCodec, server_key-IsCodec, client_info-IsCodec, server_info-IsCodec, send_packet-IsCodec,
  recv_packet-IsCodec, forward_packet-IsCodec, peer_present-IsCodec, watch_conns-IsCodec,
}
use dersp.Codec.Laws.Emits.{Emits}
use dersp.Proto.Data.Wire.RoundTrip.{wire_frame, Emits-frame, IsCanonical, frame_round_trip}

pub data Body : Type 0 where
  server_key client_info server_info send_packet : Body
  recv_packet forward_packet peer_present watch_conns : Body

abbrev pub Of : Body → Type 0
Of Body.server_key = ServerKey
Of Body.client_info = ClientInfo
Of Body.server_info = ServerInfo
Of Body.send_packet = SendPacket
Of Body.recv_packet = RecvPacket
Of Body.forward_packet = ForwardPacket
Of Body.peer_present = PeerPresent
Of Body.watch_conns = WatchConns

abbrev pub encode_body : (k : Body) → Encode (Of k)
encode_body Body.server_key = encode_server_key
encode_body Body.client_info = encode_client_info
encode_body Body.server_info = encode_server_info
encode_body Body.send_packet = encode_send_packet
encode_body Body.recv_packet = encode_recv_packet
encode_body Body.forward_packet = encode_forward_packet
encode_body Body.peer_present = encode_peer_present
encode_body Body.watch_conns = encode_watch_conns

abbrev pub decode_body : (k : Body) → Decode (Of k)
decode_body Body.server_key = decode_server_key
decode_body Body.client_info = decode_client_info
decode_body Body.server_info = decode_server_info
decode_body Body.send_packet = decode_send_packet
decode_body Body.recv_packet = decode_recv_packet
decode_body Body.forward_packet = decode_forward_packet
decode_body Body.peer_present = decode_peer_present
decode_body Body.watch_conns = decode_watch_conns

-- The arrays of a struct have their sizes, and hold bytes.
abbrev pub IsBody : (k : Body) → Of k → Type 0
IsBody Body.server_key s = IsArray 8 s.magic × IsKey s.public_key
IsBody Body.client_info c = IsKey c.public_key × IsArray 24 c.nonce
IsBody Body.server_info s = Unit {0}
IsBody Body.send_packet p = IsKey p.target
IsBody Body.recv_packet p = IsKey p.target
IsBody Body.forward_packet p = IsKey p.source × IsKey p.target
IsBody Body.peer_present p = IsKey p.public_key
IsBody Body.watch_conns w = Unit {0}

-- The bytes of a struct.
abbrev pub wire_body : (k : Body) → Of k → List ℕ
wire_body Body.server_key s = s.magic ++ s.public_key.bytes
wire_body Body.client_info c = (c.public_key.bytes ++ c.nonce) ++ c.cipher_text
wire_body Body.server_info s = s.bytes
wire_body Body.send_packet p = p.target.bytes ++ p.payload
wire_body Body.recv_packet p = p.target.bytes ++ p.payload
wire_body Body.forward_packet p = (p.source.bytes ++ p.target.bytes) ++ p.payload
wire_body Body.peer_present p = p.public_key.bytes
wire_body Body.watch_conns w = w.bytes

pub body-IsCodec :
    (k : Body) (x : Of k) → IsBody k x → IsCodec (encode_body k) (decode_body k) x (wire_body k x)
body-IsCodec Body.server_key x h = server_key-IsCodec x h.0 h.1
body-IsCodec Body.client_info x h = client_info-IsCodec x h.0 h.1
body-IsCodec Body.server_info x h = server_info-IsCodec x
body-IsCodec Body.send_packet x h = send_packet-IsCodec x h
body-IsCodec Body.recv_packet x h = recv_packet-IsCodec x h
body-IsCodec Body.forward_packet x h = forward_packet-IsCodec x h.0 h.1
body-IsCodec Body.peer_present x h = peer_present-IsCodec x h
body-IsCodec Body.watch_conns x h = watch_conns-IsCodec x

-- A frame with a type that decodes to itself, around a value whose bytes leave room for a size of
-- four bytes.
abbrev pub IsFrame : (k : Body) → Frame (Of k) → Type 0
IsFrame k f =
    IsBody k f.inner.inner
    × IsCanonical f.frame_type
    × (length (wire_body k f.inner.inner) < 2 ^ 32)

module _ (k : Body) (f : Frame (Of k)) (is : IsFrame k f) where
  pub Emits-body :
      Emits (encode_frame (encode_body k) f) (wire_frame f.frame_type (wire_body k f.inner.inner))
  Emits-body =
      Emits-frame (encode_body k) (decode_body k) f.frame_type f.inner.inner
        (wire_body k f.inner.inner) (body-IsCodec k f.inner.inner (is.0)) (is.2)

-- For each of the eight structs that stand inside a frame: a frame with a type that decodes to
-- itself, around a value whose keys, nonce and magic have their sizes and whose bytes leave room
-- for a four-byte size, decodes from its encoding to itself, whatever follows it.
pub body_round_trip :
    (k : Body) (f : Frame (Of k)) (rest : List ℕ)
    → IsFrame k f
    → decode_frame (decode_body k) ((encode_frame (encode_body k) f vec_buffer []).1 ++ rest)
      ≡ (ok f, rest)
body_round_trip k f rest (is, canonical, small) =
    frame_round_trip (encode_body k) (decode_body k) f.frame_type f.inner.inner
      (wire_body k f.inner.inner) (body-IsCodec k f.inner.inner is) small canonical rest
