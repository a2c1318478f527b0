-- ===== src/Examples/Codecs.antt =====
-- The codecs on concrete bytes, some of them from codec/tests and dersp/src/proto/data.rs.
use dersp.Prelude.{ℕ, ◌≡◌, ◌++◌, refl, [], ◌∷◌, length, replicate, drop, arith, ◌<◌, ◌^◌, List}
use dersp.Exec.{ok, err, panic}
use dersp.Codec.Write.{
  vec_buffer, slice_buffer, view_of, buffer_overflow, vec_fill_from, vec_later_fill, overwrite,
  slice_fill_from,
}
use dersp.Codec.Write.VecLaws.{vec_lawful}
use dersp.Codec.Read.{fill_buf, is_empty}
use dersp.Codec.Types.{wrap}
use dersp.Codec.Encode.{
  encode_u8, encode_u16, encode_vec, encode_bytes, encode_slice, encode_size_wrapper, fill_region,
  to_be_bytes, u8_size, ◌+?◌,
}
use dersp.Codec.Decode.{
  decode_u8, decode_u16, decode_vec, decode_size_wrapper, decode_u32, decode_within, decode_array,
  try_into_usize,
}
use dersp.Codec.Laws.Emits.{Emits, Emits-+?}
use dersp.Codec.Laws.Containers.{Emits-u8, Emits-u16, Emits-slice, wire_vec}
use dersp.Codec.Laws.Sized.{Emits-size_wrapper, size_wrapper-panics, u8-IsSize}
use dersp.Codec.Laws.Reads.{Drains, IsElement, Reads-u16, Drains-vec}
use dersp.Codec.Laws.Buffers.{slice-eq-vec, slice-overflows}
use dersp.Proto.Data.FrameType.{tag, from_tag, peer_present, decode_frame_type}
use dersp.Proto.Data.Frames.{
  Frame, ClientInfo, PeerPresent, decode_frame, encode_frame, decode_client_info,
  encode_client_info, frame_client_info, decode_peer_present, encode_peer_present,
}
use dersp.Crypto.Keys.{decode_public_key}
use dersp.Proto.Data.Wire.Bodies.{Body, IsFrame, body_round_trip}
use dersp.Proto.Data.Wire.Exact.{frame_reencodes}

-- `Vector::<u8, u8>::new(vec![1, 2, 3]).encode(&mut buffer)`
vector_bytes :
    encode_size_wrapper u8_size (encode_vec encode_u8) (wrap (1 ∷ 2 ∷ 3 ∷ [])) vec_buffer (9 ∷ [])
    ≡ (ok 4, 9 ∷ 3 ∷ 1 ∷ 2 ∷ 3 ∷ [])
unfolding encode_size_wrapper encode_vec encode_u8 encode_bytes vec_fill_from vec_later_fill
    fill_region overwrite slice_fill_from
vector_bytes = refl

Emits-size_wrapper_example :
    Emits
      (encode_size_wrapper u8_size encode_slice (wrap (1 ∷ 2 ∷ 3 ∷ [])))
      (to_be_bytes 1 3 ++ (1 ∷ 2 ∷ 3 ∷ []))
Emits-size_wrapper_example =
    Emits-size_wrapper u8_size u8-IsSize encode_slice (1 ∷ 2 ∷ 3 ∷ []) (1 ∷ 2 ∷ 3 ∷ [])
      (Emits-slice (1 ∷ 2 ∷ 3 ∷ [])) (omega arith)

size_wrapper-panics_example :
    (encode_size_wrapper u8_size encode_slice (wrap (replicate 256 0)) vec_buffer []).0 ≡ panic
size_wrapper-panics_example =
    size_wrapper-panics u8_size u8-IsSize encode_slice (replicate 256 0) (replicate 256 0)
      (Emits-slice (replicate 256 0)) (omega arith) vec_buffer vec_lawful [] refl

two_numbers_IsElement : (n : ℕ) → n < 2 ^ 16 → IsElement decode_u16 (to_be_bytes 2) n
unfolding to_be_bytes
two_numbers_IsElement n h = record { reads = Reads-u16 n h; nonempty = omega arith }

Drains-vec_example :
    Drains (decode_vec decode_u16) (1 ∷ 700 ∷ []) (wire_vec (to_be_bytes 2) (1 ∷ 700 ∷ []))
Drains-vec_example =
    Drains-vec decode_u16 (to_be_bytes 2) (1 ∷ 700 ∷ [])
      (two_numbers_IsElement 1 (omega arith), (two_numbers_IsElement 700 (omega arith), tt))

-- `encode_in_slice` of codec/tests/encode-derive.rs
slice-eq-vec_example :
    (encode_u8 1 +? encode_u16 0x0203) slice_buffer (view_of (0 ∷ 0 ∷ 0 ∷ 0 ∷ [])) ≡ (
      ok (length ((encode_u8 1 +? encode_u16 0x0203) vec_buffer []).1),
      record {
        before = ((encode_u8 1 +? encode_u16 0x0203) vec_buffer []).1;
        left =
            drop (length ((encode_u8 1 +? encode_u16 0x0203) vec_buffer []).1) (0 ∷ 0 ∷ 0 ∷ 0 ∷ []);
        after = [];
      },
    )
unfolding to_be_bytes
slice-eq-vec_example =
    slice-eq-vec (encode_u8 1 +? encode_u16 0x0203) ((1 ∷ []) ++ to_be_bytes 2 0x0203)
      (0 ∷ 0 ∷ 0 ∷ 0 ∷ []) (Emits-+? (Emits-u8 1) (Emits-u16 0x0203)) (omega arith)

slice-overflows_example : (encode_u8 8 slice_buffer (view_of [])).0 ≡ err buffer_overflow
unfolding encode_u8 encode_bytes vec_fill_from
slice-overflows_example = slice-overflows (encode_u8 8) (8 ∷ []) [] (Emits-u8 8) (omega arith)

-- `test_client_info` of dersp/src/proto/data.rs
abbrev info : ClientInfo
info = record {
  public_key = record { bytes = replicate 32 5 };
  nonce = replicate 24 2;
  cipher_text = 12 ∷ 12 ∷ [];
}

body_round_trip_example :
    decode_frame decode_client_info
      ((encode_frame encode_client_info (frame_client_info info) vec_buffer []).1 ++ (7 ∷ []))
    ≡ (ok (frame_client_info info), 7 ∷ [])
unfolding frame_client_info tag from_tag
body_round_trip_example =
    body_round_trip Body.client_info (frame_client_info info) (7 ∷ [])
      ((omega arith, omega arith), refl, omega arith)

-- An announcement of a peer, and a byte after it.
abbrev announced : List ℕ
announced = 9 ∷ 0 ∷ 0 ∷ 0 ∷ 32 ∷ (replicate 32 5 ++ (8 ∷ []))

abbrev announcement : Frame PeerPresent
announcement = record {
  frame_type = peer_present;
  inner = wrap (record { public_key = record { bytes = replicate 32 5 } });
}

announced_decodes : decode_frame decode_peer_present announced ≡ (ok announcement, 8 ∷ [])
unfolding decode_frame decode_frame_type decode_u8 decode_u32 decode_size_wrapper decode_within
    decode_peer_present decode_public_key decode_array try_into_usize fill_buf from_tag is_empty
announced_decodes = refl

frame_reencodes_example :
    IsFrame Body.peer_present announcement
    × ((encode_frame encode_peer_present announcement vec_buffer []).0 ≡ ok 37)
    × ((encode_frame encode_peer_present announcement vec_buffer []).1 ++ (8 ∷ []) ≡ announced)
frame_reencodes_example =
    frame_reencodes Body.peer_present announced announcement (8 ∷ []) (omega arith)
      announced_decodes
