-- ===== src/Proto/Handshake/Info.antt =====
-- The server's side of a handshake against a client info, and what comes with it
-- (dersp/src/proto/mod.rs).
use dersp.Prelude.{
  ℕ, ◌-◌, ◌≤◌, ◌<◌, ◌≡◌, refl, false, some, List, [], ◌∷◌, ◌++◌, length, take, replicate,
  length-append, arith, ◌+◌, ◌^◌, ap, append_assoc, ◌∙◌, sym, append-nil,
}
use dersp.Exec.{ok}
use dersp.Codec.Encode.{to_be_bytes}
use dersp.Codec.Laws.Containers.{length-to_be_bytes}
use dersp.Proto.Data.Wire.Packets.{get_frame_type_lem}
use dersp.Net.{Stream, Writer, received}
use dersp.Crypto.Keys.{IsKey, IsArray}
use dersp.Proto.Data.FrameType.{FrameType, get_frame_type, tag, from_tag}
use dersp.Proto.Data.Frames.{ClientInfo, encode_client_info, decode_client_info}
use dersp.Proto.Data.Wire.Codecs.{client_info-IsCodec}
use dersp.Proto.Data.Wire.RoundTrip.{IsCanonical, wire_frame, IsCanonical, Reads-frame}
use dersp.Proto.Messages.{unframe}
use dersp.Crypto.Secret.{SecretKey}
use dersp.Proto.ClientInfo.{ClientInfoPayload, complete, complete_from, complete_with}
use dersp.Proto.Messages.Written.{appended}
use dersp.Proto.Handshake.Server.{
  Services, ok_response, handle_handshake, open_client_info, read_client_info, mesh_key,
}
use dersp.Proto.Handshake.Exchange.{greeting, info_bytes, length-info_bytes}
use dersp.Proto.Handshake.Accept.{
  connection, read_array_lem, IsUpgrade, finalize_http_phase_lem, write_server_key_lem,
  write_server_info_lem,
}

-- The array that a client info was read into, whose rest is zeros, opens to it.
client_info_opens :
    (info : ClientInfo) (rest : List ℕ)
    → IsKey info.public_key
    → IsArray 24 info.nonce
    → length info.cipher_text + 56 < 2 ^ 32
    → open_client_info
        (get_frame_type (wire_frame FrameType.client_info (info_bytes info) ++ rest))
        (wire_frame FrameType.client_info (info_bytes info) ++ rest)
      ≡ ok info
unfolding open_client_info unframe
client_info_opens info rest hk hn small =
    let read =
      Reads-frame encode_client_info decode_client_info FrameType.client_info info (info_bytes info)
        (client_info-IsCodec info hk hn) (omega (arith, length-info_bytes info hk hn))
        client_info-IsCanonical rest in
    rw (
      (get_frame_type_lem).1 (tag FrameType.client_info)
          (to_be_bytes 4 (length (info_bytes info)) ++ info_bytes info ++ rest),
      client_info-IsCanonical,
      read,
    )
  where
    client_info-IsCanonical : IsCanonical FrameType.client_info
    client_info-IsCanonical = unfold tag from_tag in refl

-- The info that a client has sealed for the server's key with a text that parses.
pub record IsSealed (services : Services) (sk : SecretKey) (info : ClientInfo)
    (payload : ClientInfoPayload) : Type 0 where
  pub key : IsKey info.public_key
  pub nonce : IsArray 24 info.nonce
  pub fits : length info.cipher_text + 61 ≤ 1024
  pub text : List ℕ
  pub decrypts : services.box.decrypt info.public_key sk info.nonce info.cipher_text ≡ some text
  pub parses : services.parse_json text ≡ some payload

module _ (services : Services) (sk : SecretKey) (info : ClientInfo) (payload : ClientInfoPayload)
    (known : IsSealed services sk info payload) (s : Stream) (n : ℕ) where
  abbrev wire : List ℕ
  wire = wire_frame FrameType.client_info (info_bytes info)

  length-wire : length wire ≡ length info.cipher_text + 61
  length-wire = omega (
    arith,
    length-info_bytes info known.key known.nonce,
    length-append (to_be_bytes 4 (length (info_bytes info))) (info_bytes info),
    length-to_be_bytes 4 (length (info_bytes info)),
  )

  -- The read of a client info also takes what came with it.
  read_client_info-early :
      (extra : List ℕ) (w : Writer)
      → length info.cipher_text + 61 + length extra ≤ 1024
      → read_client_info services sk (connection (received (wire ++ extra) ∷ s) w n)
        ≡ (ok (info.public_key, mesh_key payload.meshkey), connection s w n)
  unfolding read_client_info complete complete_from complete_with
  read_client_info-early extra w room =
      let zeros : List ℕ = replicate (1024 - length (wire ++ extra)) 0 in
      let opened =
        client_info_opens info (extra ++ zeros) known.key known.nonce (omega (arith, known.fits)) in
      rw (
        read_array_lem 1024 (wire ++ extra) s w n
            (omega (arith, length-append wire extra, length-wire)),
        append_assoc wire extra zeros,
        opened,
        known.decrypts,
        known.parses,
      )

  module _ (request : List ℕ) (w : Writer) (key : IsKey (services.box.public_of sk))
      (upgrade : IsUpgrade services request) (intact : w.is_broken ≡ false) where
    -- The server's side as a whole: it answers the request, greets with its key, takes the
    -- client's key and mesh key from the client info, and ends with an empty server info.
    handle_handshake-early :
        (extra : List ℕ)
        → length info.cipher_text + 61 + length extra ≤ 1024
        → handle_handshake services sk
            (connection (received request ∷ received (wire ++ extra) ∷ s) w n)
          ≡ (
            ok (info.public_key, mesh_key payload.meshkey),
            connection s
                (appended
                  (appended
                    (appended w (take n ok_response))
                    (greeting (services.box.public_of sk)))
                  (wire_frame FrameType.server_info []))
                n,
          )
    unfolding handle_handshake
    handle_handshake-early extra room =
        let w1 = appended w (take n ok_response) in
        let w2 = appended w1 (greeting (services.box.public_of sk)) in
        let more = received (wire ++ extra) ∷ s in
        rw (
          finalize_http_phase_lem services request more w n upgrade intact,
          write_server_key_lem (services.box.public_of sk) more w1 n key intact,
          read_client_info-early extra w2 room,
          write_server_info_lem s w2 n intact,
        )

    pub handle_handshake_lem :
        handle_handshake services sk (connection (received request ∷ received wire ∷ s) w n) ≡ (
          ok (info.public_key, mesh_key payload.meshkey),
          connection s
              (appended
                (appended (appended w (take n ok_response)) (greeting (services.box.public_of sk)))
                (wire_frame FrameType.server_info []))
              n,
        )
    handle_handshake_lem =
        ap
          (λ xs. handle_handshake services sk (connection (received request ∷ received xs ∷ s) w n))
          (sym (append-nil wire))
        ∙ handle_handshake-early [] (omega (arith, known.fits))

    -- For a whole upgrade request, a client info that is sealed for the server, a server key of
    -- 32 bytes and a connection that does not break: whatever a client sends in one read with its
    -- client info, up to the 1024 bytes of that read, is lost; the handshake ends, and leaves the
    -- connection, as if it had not been sent.
    pub handle_handshake-drops :
        (extra : List ℕ)
        → length info.cipher_text + 61 + length extra ≤ 1024
        → handle_handshake services sk
            (connection (received request ∷ received (wire ++ extra) ∷ s) w n)
          ≡ handle_handshake services sk (connection (received request ∷ received wire ∷ s) w n)
    handle_handshake-drops extra room = handle_handshake-early extra room ∙ sym handle_handshake_lem
