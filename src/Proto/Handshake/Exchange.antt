-- ===== src/Proto/Handshake/Exchange.antt =====
-- The client's side of a handshake against a server's greeting (dersp/src/proto/mod.rs).
use dersp.Prelude.{
  ℕ, ◌+◌, ◌^◌, ◌<◌, ◌≤◌, ◌≡◌, refl, true, false, Option, some, List, ◌++◌, length, length-append,
  arith, bytes_eq_refl, ◌==◌,
}
use dersp.Exec.{ok}
use dersp.Net.{Stream, Writer, pending, IsSound, reads_left}
use dersp.Codec.Types.{wrap}
use dersp.Codec.Laws.Reads.{Reads→Drains}
use dersp.Crypto.Keys.{PublicKey, IsKey, IsArray}
use dersp.Crypto.Secret.{SecretKey, Sealing, IsSealing}
use dersp.InOut.Framing.{message_of}
use dersp.InOut.Chunks.{reader_of, get_next_message_reads}
use dersp.Proto.Data.FrameType.{FrameType, tag, from_tag}
use dersp.Proto.Data.Frames.{
  magic_bytes, new_server_key, validate_magic, encode_server_key, decode_server_key, decode_frame,
  ClientInfo, encode_client_info, decode_client_info, frame_client_info,
}
use dersp.Proto.Data.Wire.Codecs.{server_key-IsCodec, client_info-IsCodec}
use dersp.Proto.Data.Wire.RoundTrip.{wire_frame, Reads-frame, IsCanonical}
use dersp.Proto.ClientInfo.{plain_text, new_client_info, client_info_from}
use dersp.Proto.Messages.{unframe}
use dersp.Proto.Messages.Written.{appended, write_frame_lem}
use dersp.Proto.Handshake.Client.{
  Session, receive, open_server_key, validated_key, read_server_key, write_client_info, transmit,
  exchange_keys,
}

-- The server's greeting on the wire.
abbrev pub greeting : PublicKey → List ℕ
greeting k = wire_frame FrameType.server_key (magic_bytes ++ k.bytes)

-- The body of a client info.
abbrev pub info_bytes : ClientInfo → List ℕ
info_bytes c = (c.public_key.bytes ++ c.nonce) ++ c.cipher_text

abbrev pub session : Stream → List ℕ → Writer → Session
session s front w = record { reader = reader_of s front; writer = w }

server_key-IsCanonical : IsCanonical FrameType.server_key
unfolding tag from_tag
server_key-IsCanonical = refl

greeting_opens :
    (k : PublicKey)
    → IsKey k
    → open_server_key
        (from_tag (tag FrameType.server_key))
        (message_of (tag FrameType.server_key) (magic_bytes ++ k.bytes))
      ≡ ok (new_server_key k)
unfolding open_server_key unframe new_server_key
greeting_opens k h =
    let read =
      Reads→Drains (decode_frame decode_server_key)
        (record { frame_type = FrameType.server_key; inner = wrap (new_server_key k) }) (greeting k)
        (Reads-frame encode_server_key decode_server_key FrameType.server_key (new_server_key k)
          (magic_bytes ++ k.bytes) (server_key-IsCodec (new_server_key k) (omega arith) h)
          (omega (arith, h.size, length-append magic_bytes k.bytes)) server_key-IsCanonical) in
    rw (server_key-IsCanonical, read)

key_validates : (k : PublicKey) → validated_key (new_server_key k) ≡ ok k
unfolding validated_key new_server_key validate_magic
key_validates k = rw (bytes_eq_refl magic_bytes)

read_server_key_lem :
    (fuel : ℕ) (k : PublicKey) (s : Stream) (front rest : List ℕ) (w : Writer)
    → IsKey k
    → IsSound s
    → reads_left s < fuel
    → front ++ pending s ≡ greeting k ++ rest
    → (s' : Stream) × (left : List ℕ) × (read_server_key fuel (session s front w)
        ≡ (ok k, session s' left w))
      × (left ++ pending s' ≡ rest)
      × IsSound s'
      × (reads_left s' ≤ reads_left s)
unfolding read_server_key receive
read_server_key_lem fuel k s front rest w h sound enough e =
    let (s', left, run, over, sound', fewer) =
      get_next_message_reads fuel (tag FrameType.server_key) (magic_bytes ++ k.bytes) rest s front
        (omega (arith, h.size, length-append magic_bytes k.bytes)) sound enough e in
    (s', left, rw (run, greeting_opens k h, key_validates k), over, sound', fewer)

-- The client info that a key, a nonce and a cipher text make.
abbrev pub info_of : PublicKey → List ℕ → List ℕ → ClientInfo
info_of k nonce cipher = record { public_key = k; nonce = nonce; cipher_text = cipher }

pub length-info_bytes :
    (c : ClientInfo)
    → IsKey c.public_key
    → IsArray 24 c.nonce
    → length (info_bytes c) ≡ 56 + length c.cipher_text
length-info_bytes c hk hn = omega (
  arith,
  hk.size,
  hn.size,
  length-append (c.public_key.bytes ++ c.nonce) c.cipher_text,
  length-append c.public_key.bytes c.nonce,
)

module _ (box : Sealing) (laws : IsSealing box) (s c : SecretKey) (nonce : List ℕ)
    (random : IsArray 24 nonce) where
  new_client_info_lem :
      (meshkey : Option (List ℕ)) (cipher : List ℕ)
      → box.encrypt (box.public_of s) c nonce (plain_text meshkey) ≡ some cipher
      → new_client_info box c (box.public_of s) meshkey nonce
        ≡ ok (info_of (box.public_of c) nonce cipher)
  unfolding new_client_info client_info_from
  new_client_info_lem meshkey cipher sealed =
      let long : (length nonce == 24) ≡ true = ground (arith, random.size) in rw (sealed, long)

  -- The client reads the server's key in whatever pieces it comes, and writes one client info.
  pub exchange_keys_lem :
      (fuel : ℕ) (meshkey : Option (List ℕ)) (cipher : List ℕ) (from : Stream) (front rest : List ℕ)
      (w : Writer)
      → box.encrypt (box.public_of s) c nonce (plain_text meshkey) ≡ some cipher
      → length cipher + 56 < 2 ^ 32
      → IsSound from
      → reads_left from < fuel
      → front ++ pending from ≡ greeting (box.public_of s) ++ rest
      → w.is_broken ≡ false
      → (from' : Stream) × (left : List ℕ) × (exchange_keys fuel box c meshkey nonce
            (session from front w)
          ≡ (
            ok (box.public_of s),
            session from' left (
                appended w (
                  wire_frame FrameType.client_info
                    (info_bytes (info_of (box.public_of c) nonce cipher)))),
          ))
        × (left ++ pending from' ≡ rest)
        × IsSound from'
        × (reads_left from' ≤ reads_left from)
  unfolding exchange_keys write_client_info transmit frame_client_info
  exchange_keys_lem fuel meshkey cipher from front rest w sealed small sound enough e intact =
      let info = info_of (box.public_of c) nonce cipher in
      let key = laws.public_of-IsKey c in
      let (from', left, run, over, sound', fewer) =
        read_server_key_lem fuel (box.public_of s) from front rest w (laws.public_of-IsKey s) sound
          enough e in
      let written =
        write_frame_lem encode_client_info decode_client_info FrameType.client_info info
          (info_bytes info) w (client_info-IsCodec info key random)
          (omega (arith, length-info_bytes info key random)) intact in
      (
        from',
        left,
        rw (run, new_client_info_lem meshkey cipher sealed, written),
        over,
        sound',
        fewer,
      )
