-- ===== src/Proto/Handshake/Accept.antt =====
-- The server's side of a handshake against a client's request and client info
-- (dersp/src/proto/mod.rs).
use dersp.Prelude.{
  ℕ, ◌-◌, ◌≤◌, ◌<◌, ◌≡◌, true, false, some, List, [], ◌∷◌, ◌++◌, length, take, replicate,
  length-append, arith, ltb, le→leb,
}
use dersp.Exec.{ok}
use dersp.Net.{Stream, Writer, received, read, write_all}
use dersp.Crypto.Keys.{PublicKey, IsKey}
use dersp.Proto.Data.FrameType.{FrameType}
use dersp.Proto.Data.Frames.{
  magic_bytes, new_server_key, frame_server_key, encode_server_key, decode_server_key,
  encode_server_info, decode_server_info, frame_server_info, default_server_info,
}
use dersp.Proto.Data.Wire.Codecs.{server_key-IsCodec, server_info-IsCodec}
use dersp.Proto.Data.Wire.RoundTrip.{wire_frame}
use dersp.Proto.Messages.Written.{appended, write_frame_lem}
use dersp.Proto.Handshake.Server.{
  Connection, Services, HttpHeader, read_array, on_reader, on_writer, write_once, ok_response,
  check_request, slice_body, validate_headers, finalize_http_phase, write_server_key,
  write_server_info,
}
use dersp.Proto.Handshake.Exchange.{greeting}

-- What a read into an array of zeros holds.
abbrev pub padded : ℕ → List ℕ → List ℕ
padded size xs = xs ++ replicate (size - length xs) 0

abbrev pub connection : Stream → Writer → ℕ → Connection
connection s w n = record { reader = s; writer = w; takes = n }

pub read_array_lem :
    (size : ℕ) (c : List ℕ) (s : Stream) (w : Writer) (n : ℕ)
    → length c ≤ size
    → read_array size (connection (received c ∷ s) w n)
      ≡ (ok (padded size c, length c), connection s w n)
unfolding read_array on_reader read
read_array_lem size c s w n fits = rw (le→leb _ _ fits)

write_once_lem :
    (bytes : List ℕ) (s : Stream) (w : Writer) (n : ℕ)
    → w.is_broken ≡ false
    → write_once bytes (connection s w n) ≡ (ok tt, connection s (appended w (take n bytes)) n)
unfolding write_once on_writer write_all
write_once_lem bytes s w n intact = rw intact

pub write_server_key_lem :
    (k : PublicKey) (s : Stream) (w : Writer) (n : ℕ)
    → IsKey k
    → w.is_broken ≡ false
    → write_server_key k (connection s w n) ≡ (ok tt, connection s (appended w (greeting k)) n)
unfolding write_server_key on_writer frame_server_key new_server_key
write_server_key_lem k s w n h intact =
    let written =
      write_frame_lem encode_server_key decode_server_key FrameType.server_key (new_server_key k)
        (magic_bytes ++ k.bytes) w (server_key-IsCodec (new_server_key k) (omega arith) h)
        (omega (arith, h.size, length-append magic_bytes k.bytes)) intact in
    rw written

pub write_server_info_lem :
    (s : Stream) (w : Writer) (n : ℕ)
    → w.is_broken ≡ false
    → write_server_info (connection s w n)
      ≡ (ok tt, connection s (appended w (wire_frame FrameType.server_info [])) n)
unfolding write_server_info on_writer frame_server_info
write_server_info_lem s w n intact =
    let written =
      write_frame_lem encode_server_info decode_server_info FrameType.server_info
        default_server_info [] w (server_info-IsCodec default_server_info) (omega arith) intact in
    rw written

-- A request that fits the array, that is complete and whose headers are as expected.
pub record IsUpgrade (services : Services) (request : List ℕ) : Type 0 where
  pub nonempty : 0 < length request
  pub fits : length request < 4096
  pub body_start : ℕ
  pub headers : List HttpHeader
  pub parses : services.parse_request (padded 4096 request) ≡ (ok (some body_start), headers)
  pub in_array : body_start ≤ 4096
  pub expected : validate_headers headers ≡ ok tt

pub finalize_http_phase_lem :
    (services : Services) (request : List ℕ) (s : Stream) (w : Writer) (n : ℕ)
    → IsUpgrade services request
    → w.is_broken ≡ false
    → finalize_http_phase services (connection (received request ∷ s) w n)
      ≡ (ok tt, connection s (appended w (take n ok_response)) n)
unfolding finalize_http_phase check_request slice_body
finalize_http_phase_lem services request s w n u intact =
    let some_read : ltb 0 (length request) ≡ true = ground (arith, u.nonempty) in
    let not_full : ltb (length request) 4096 ≡ true = ground (arith, u.fits) in
    rw (
      read_array_lem 4096 request s w n (omega (arith, u.fits)),
      some_read,
      not_full,
      u.parses,
      u.expected,
      le→leb _ _ u.in_array,
      write_once_lem ok_response s w n intact,
    )
