-- ===== src/Proto/Data/Wire/Codecs.antt =====
-- Each struct of dersp/src/proto/data.rs: the bytes that its encoder writes, and that its decoder
-- returns it from them.
use dersp.Prelude.{ℕ, subst, List, [], ◌∷◌, ◌++◌, All, sym, append_assoc}
use dersp.Codec.Read.{Decode}
use dersp.Exec.{bind-ok, ◌>>=◌, pure}
use dersp.Codec.Encode.{Encoding, ◌+?◌, encode_unit, encode_u8, Encode}
use dersp.Codec.Decode.{decode_array}
use dersp.Codec.Laws.Emits.{Emits, Emits-unit, Emits-+?}
use dersp.Codec.Laws.Containers.{Emits-u8, Emits-array, Emits-vec}
use dersp.Codec.Laws.Reads.{
  Reads, Drains, Drains-bind, Reads-array, Drains-bytes, wire_bytes, Reads→Drains,
}
use dersp.Crypto.Keys.{PublicKey, IsKey, encode_public_key, decode_public_key, IsArray}
use dersp.Proto.Data.FrameType.{FrameType, tag, encode_frame_type}
use dersp.Proto.Data.Frames.{
  encode_bytes_vec, decode_bytes_vec, ServerKey, encode_server_key, decode_server_key, ClientInfo,
  encode_client_info, decode_client_info, ServerInfo, encode_server_info, decode_server_info,
  SendPacket, encode_send_packet, decode_send_packet, RecvPacket, encode_recv_packet,
  decode_recv_packet, ForwardPacket, encode_forward_packet, decode_forward_packet, PeerPresent,
  encode_peer_present, decode_peer_present, WatchConns, encode_watch_conns, decode_watch_conns,
}

-- A struct starts from 0, which writes nothing.
Emits-fields : {a : Encoding} {xs : List ℕ} → Emits a xs → Emits (encode_unit +? a) xs
Emits-fields e = Emits-+? Emits-unit e

Emits-bytes_vec : (xs : List ℕ) → Emits (encode_bytes_vec xs) xs
Emits-bytes_vec xs =
    subst (Emits (encode_bytes_vec xs)) (wire_bytes xs)
      (Emits-vec encode_u8 (λ x. x ∷ []) xs (all_u8 xs))
  where
    all_u8 : (ys : List ℕ) → All (λ x. Emits (encode_u8 x) (x ∷ [])) ys
    all_u8 [] = tt
    all_u8 (y ∷ ys) = (Emits-u8 y, all_u8 ys)

Emits-public_key : (k : PublicKey) → IsKey k → Emits (encode_public_key k) k.bytes
unfolding encode_public_key
Emits-public_key k h = Emits-fields (Emits-array 32 k.bytes h.size)

Reads-public_key : (k : PublicKey) → IsKey k → Reads decode_public_key k k.bytes
unfolding decode_public_key
Reads-public_key k h rest = bind-ok (decode_array 32) _ (Reads-array 32 k.bytes h.size rest)

pub Emits-frame_type : (ty : FrameType) → Emits (encode_frame_type ty) (tag ty ∷ [])
unfolding encode_frame_type
Emits-frame_type ty = Emits-+? (Emits-u8 (tag ty)) Emits-unit

-- The encoder writes `xs` for `x`, and the decoder gives `x` back where these bytes are all.
pub record IsCodec {T : Type 0} (encode : Encode T) (decode : Decode T) (x : T) (xs : List ℕ)
    : Type 1 where
  pub emits : Emits (encode x) xs
  pub drains : Drains decode x xs

-- Two fields before the last one.
Drains-three :
    {A B T : Type 0} (d : Decode A) (e : A → Decode B) (f : A → B → Decode T) {x : A} {y : B}
    {t : T} (xs ys zs : List ℕ)
    → Reads d x xs
    → Reads (e x) y ys
    → Drains (f x y) t zs
    → Drains (d >>= λ a. e a >>= f a) t ((xs ++ ys) ++ zs)
Drains-three d e f {x} {y} {t} xs ys zs r q h =
    subst (Drains (d >>= λ a. e a >>= f a) t) (sym (append_assoc xs ys zs))
      (Drains-bind d _ x t xs (ys ++ zs) r (Drains-bind (e x) (f x) y t ys zs q h))

Drains-last :
    {T : Type 0} (f : List ℕ → T) (xs : List ℕ)
    → Drains (decode_bytes_vec >>= λ p. pure (f p)) (f xs) xs
Drains-last f xs = bind-ok decode_bytes_vec _ (Drains-bytes xs)

pub server_key-IsCodec :
    (s : ServerKey)
    → IsArray 8 s.magic
    → IsKey s.public_key
    → IsCodec encode_server_key decode_server_key s (s.magic ++ s.public_key.bytes)
unfolding encode_server_key decode_server_key
server_key-IsCodec s hm hk = record {
  emits =
      Emits-+? (Emits-fields (Emits-array 8 s.magic hm.size)) (Emits-public_key s.public_key hk);
  drains =
      Drains-bind (decode_array 8) _ s.magic s s.magic s.public_key.bytes
        (Reads-array 8 s.magic hm.size)
        (bind-ok decode_public_key _
          (Reads→Drains decode_public_key s.public_key _ (Reads-public_key s.public_key hk)));
}

pub client_info-IsCodec :
    (c : ClientInfo)
    → IsKey c.public_key
    → IsArray 24 c.nonce
    → IsCodec encode_client_info decode_client_info c
        ((c.public_key.bytes ++ c.nonce) ++ c.cipher_text)
unfolding encode_client_info decode_client_info
client_info-IsCodec c hk hn = record {
  emits =
      Emits-+?
        (Emits-+? (Emits-fields (Emits-public_key c.public_key hk))
          (Emits-array 24 c.nonce hn.size))
        (Emits-bytes_vec c.cipher_text);
  drains =
      Drains-three decode_public_key (λ _. decode_array 24) _ c.public_key.bytes c.nonce
        c.cipher_text (Reads-public_key c.public_key hk) (Reads-array 24 c.nonce hn.size)
        (Drains-last _ c.cipher_text);
}

pub server_info-IsCodec : (s : ServerInfo) → IsCodec encode_server_info decode_server_info s s.bytes
unfolding encode_server_info decode_server_info
server_info-IsCodec s = record {
  emits = Emits-fields (Emits-bytes_vec s.bytes);
  drains = Drains-last _ s.bytes;
}

pub send_packet-IsCodec :
    (p : SendPacket)
    → IsKey p.target
    → IsCodec encode_send_packet decode_send_packet p (p.target.bytes ++ p.payload)
unfolding encode_send_packet decode_send_packet
send_packet-IsCodec p h = record {
  emits = Emits-+? (Emits-fields (Emits-public_key p.target h)) (Emits-bytes_vec p.payload);
  drains =
      Drains-bind decode_public_key _ p.target p p.target.bytes p.payload
        (Reads-public_key p.target h) (Drains-last _ p.payload);
}

pub recv_packet-IsCodec :
    (p : RecvPacket)
    → IsKey p.target
    → IsCodec encode_recv_packet decode_recv_packet p (p.target.bytes ++ p.payload)
unfolding encode_recv_packet decode_recv_packet
recv_packet-IsCodec p h = record {
  emits = Emits-+? (Emits-fields (Emits-public_key p.target h)) (Emits-bytes_vec p.payload);
  drains =
      Drains-bind decode_public_key _ p.target p p.target.bytes p.payload
        (Reads-public_key p.target h) (Drains-last _ p.payload);
}

pub forward_packet-IsCodec :
    (p : ForwardPacket)
    → IsKey p.source
    → IsKey p.target
    → IsCodec encode_forward_packet decode_forward_packet p
        ((p.source.bytes ++ p.target.bytes) ++ p.payload)
unfolding encode_forward_packet decode_forward_packet
forward_packet-IsCodec p hs ht = record {
  emits =
      Emits-+?
        (Emits-+? (Emits-fields (Emits-public_key p.source hs)) (Emits-public_key p.target ht))
        (Emits-bytes_vec p.payload);
  drains =
      Drains-three decode_public_key (λ _. decode_public_key) _ p.source.bytes p.target.bytes
        p.payload (Reads-public_key p.source hs) (Reads-public_key p.target ht)
        (Drains-last _ p.payload);
}

pub peer_present-IsCodec :
    (p : PeerPresent)
    → IsKey p.public_key
    → IsCodec encode_peer_present decode_peer_present p p.public_key.bytes
unfolding encode_peer_present decode_peer_present
peer_present-IsCodec p h = record {
  emits = Emits-fields (Emits-public_key p.public_key h);
  drains =
      bind-ok decode_public_key _
        (Reads→Drains decode_public_key p.public_key _ (Reads-public_key p.public_key h));
}

pub watch_conns-IsCodec : (p : WatchConns) → IsCodec encode_watch_conns decode_watch_conns p p.bytes
unfolding encode_watch_conns decode_watch_conns
watch_conns-IsCodec p = record {
  emits = Emits-fields (Emits-bytes_vec p.bytes);
  drains = Drains-last _ p.bytes;
}
