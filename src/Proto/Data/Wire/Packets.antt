-- ===== src/Proto/Data/Wire/Packets.antt =====
-- The round trips of the frames that the servers and their clients exchange (dersp/src/proto/data.rs).
use dersp.Prelude.{
  ℕ, ◌+◌, ◌^◌, ◌<◌, ◌≡◌, refl, ap, ◌∙◌, true, bytes_eq_refl, List, [], ◌∷◌, ◌++◌, length,
  length-append, arith,
}
use dersp.Exec.{ok}
use dersp.Codec.Write.{vec_buffer}
use dersp.Codec.Write.VecLaws.{vec_lawful}
use dersp.Codec.Laws.Reads.{Reads-u8}
use dersp.Crypto.Keys.{PublicKey, IsKey, IsArray}
use dersp.Proto.Data.FrameType.{
  tag, from_tag, encode_frame_type, decode_frame_type, get_frame_type, unkonow,
}
use dersp.Proto.Data.Frames.{
  encode_frame, decode_frame, ClientInfo, encode_client_info, decode_client_info, frame_client_info,
  encode_server_key, decode_server_key, frame_server_key, new_server_key, validate_magic,
  ForwardPacket, encode_forward_packet, decode_forward_packet, frame_forward_packet, magic_bytes,
}
use dersp.Proto.Data.Wire.Codecs.{Emits-frame_type}
use dersp.Proto.Data.Wire.RoundTrip.{tag-from_tag}
use dersp.Proto.Data.Wire.Bodies.{Body, body_round_trip}

-- Every byte decodes to a frame type, whatever follows it, and encoding that type gives the byte
-- back.
pub frame_type_reencodes :
    (t : ℕ) (rest : List ℕ)
    → (decode_frame_type (t ∷ rest) ≡ (ok (from_tag t), rest))
      × (encode_frame_type (from_tag t) vec_buffer [] ≡ (ok 1, t ∷ []))
unfolding decode_frame_type
frame_type_reencodes t rest = (
  rw (Reads-u8 t rest),
  (Emits-frame_type (from_tag t)).writes vec_buffer vec_lawful [] refl
      ∙ ap (λ b. (ok 1, b ∷ [])) (tag-from_tag t),
)

-- The type of a received buffer is that of its first byte, and type 0 if there is none.
pub get_frame_type_lem :
    (get_frame_type [] ≡ unkonow 0)
    × ((t : ℕ) (rest : List ℕ) → get_frame_type (t ∷ rest) ≡ from_tag t)
unfolding get_frame_type
get_frame_type_lem = (refl, λ t rest. rw ((frame_type_reencodes t []).0))

-- The server's greeting with a key of 32 bytes decodes from its encoded frame to itself, whatever
-- follows the frame, and its magic bytes validate.
pub server_key_round_trip :
    (k : PublicKey) (rest : List ℕ)
    → IsKey k
    → (decode_frame decode_server_key (
          (encode_frame encode_server_key (frame_server_key (new_server_key k)) vec_buffer []).1
          ++ rest)
        ≡ (ok (frame_server_key (new_server_key k)), rest))
      × (validate_magic (new_server_key k) ≡ true)
unfolding frame_server_key new_server_key
server_key_round_trip k rest h = (
  body_round_trip Body.server_key (frame_server_key (new_server_key k)) rest (
    (omega arith, h),
    unfold tag from_tag in refl,
    omega (arith, h.size, length-append magic_bytes k.bytes),
  ),
  unfold validate_magic in bytes_eq_refl magic_bytes,
)

-- A client info with a key of 32 bytes, a nonce of 24 bytes and any cipher text that leaves room
-- for a four-byte size decodes from its encoded frame to itself, whatever follows the frame.
pub client_info_round_trip :
    (c : ClientInfo) (rest : List ℕ)
    → IsKey c.public_key
    → IsArray 24 c.nonce
    → length c.cipher_text + 56 < 2 ^ 32
    → decode_frame decode_client_info
        ((encode_frame encode_client_info (frame_client_info c) vec_buffer []).1 ++ rest)
      ≡ (ok (frame_client_info c), rest)
unfolding frame_client_info
client_info_round_trip c rest hk hn small =
    body_round_trip Body.client_info (frame_client_info c) rest (
      (hk, hn),
      unfold tag from_tag in refl,
      omega (
        arith,
        hk.size,
        hn.size,
        length-append (c.public_key.bytes ++ c.nonce) c.cipher_text,
        length-append c.public_key.bytes c.nonce,
      ),
    )

-- A forwarded packet with two keys of 32 bytes and a payload that leaves room for a four-byte
-- size decodes from its encoded frame to itself, whatever follows the frame.
pub forward_packet_round_trip :
    (p : ForwardPacket) (rest : List ℕ)
    → IsKey p.source
    → IsKey p.target
    → length p.payload + 64 < 2 ^ 32
    → decode_frame decode_forward_packet
        ((encode_frame encode_forward_packet (frame_forward_packet p) vec_buffer []).1 ++ rest)
      ≡ (ok (frame_forward_packet p), rest)
unfolding frame_forward_packet
forward_packet_round_trip p rest hs ht small =
    body_round_trip Body.forward_packet (frame_forward_packet p) rest (
      (hs, ht),
      unfold tag from_tag in refl,
      omega (
        arith,
        hs.size,
        ht.size,
        length-append (p.source.bytes ++ p.target.bytes) p.payload,
        length-append p.source.bytes p.target.bytes,
      ),
    )
