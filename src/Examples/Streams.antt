-- ===== src/Examples/Streams.antt =====
-- Runs of dersp/src/inout.rs on concrete streams, and its theorems at concrete inputs.
use dersp.Prelude.{ℕ, ◌≡◌, ◌++◌, refl, List, [], ◌∷◌, arith}
use dersp.Exec.{ok, stuck}
use dersp.Codec.Encode.{to_be_bytes}
use dersp.Codec.Read.{fill_buf}
use dersp.Codec.Decode.{decode_u8, decode_u32}
use dersp.Net.{Stream, received, read, pending}
use dersp.Proto.Data.FrameType.{keep_alive, decode_frame_type}
use dersp.Proto.Data.Frames.{decode_header}
use dersp.InOut.{PartMessage, next_message, get_next_message, fill, poll, on_part}
use dersp.InOut.Framing.{buffer_of}
use dersp.InOut.Parsing.{IsParsed, next_message-IsParsed}
use dersp.InOut.Chunks.{
  reader_of, Body, messages_of, read_messages, read_messages_lem, get_next_message_spins,
}

-- A keep-alive and a packet, cut at odd places, with one byte of a third frame.
abbrev cut_up : Stream
cut_up =
    received (6 ∷ 0 ∷ 0 ∷ [])
    ∷ received (0 ∷ 0 ∷ 4 ∷ 0 ∷ 0 ∷ 0 ∷ 2 ∷ 1 ∷ [])
    ∷ received (2 ∷ 9 ∷ [])
    ∷ []

abbrev two_bodies : List Body
two_bodies =
    record { type_byte = 6; bytes = []; small = omega arith }
    ∷ record { type_byte = 4; bytes = 1 ∷ 2 ∷ []; small = omega arith }
    ∷ []

first_message :
    (get_next_message 5 (reader_of cut_up [])).0
    ≡ ok (record { ty = keep_alive; buffer = 6 ∷ 0 ∷ 0 ∷ 0 ∷ 0 ∷ [] })
unfolding get_next_message next_message fill poll on_part read decode_header decode_frame_type
    decode_u8 decode_u32 fill_buf
first_message = refl

next_message-IsParsed_example :
    (p : PartMessage) × (rest : List ℕ) × (next_message (buffer_of (6 ∷ 0 ∷ 0 ∷ 0 ∷ 0 ∷ 7 ∷ []))
      ≡ (ok p, buffer_of rest))
    × IsParsed (6 ∷ 0 ∷ 0 ∷ 0 ∷ 0 ∷ 7 ∷ []) p rest
next_message-IsParsed_example = next_message-IsParsed (6 ∷ 0 ∷ 0 ∷ 0 ∷ 0 ∷ 7 ∷ []) (omega arith)

read_messages_example :
    (s' : Stream) × (left : List ℕ) × (read_messages 20 2 (reader_of cut_up [])
      ≡ (ok (messages_of two_bodies), reader_of s' left))
    × (left ++ pending s' ≡ 9 ∷ [])
unfolding to_be_bytes
read_messages_example = read_messages_lem 20 two_bodies cut_up [] (9 ∷ []) tt (omega arith) refl

get_next_message_spins_example :
    (get_next_message 1000 (reader_of (received (4 ∷ 0 ∷ []) ∷ []) [])).0 ≡ stuck
unfolding to_be_bytes
get_next_message_spins_example =
    get_next_message_spins 1000 4 (1 ∷ 2 ∷ []) (received (4 ∷ 0 ∷ []) ∷ []) []
      (0 ∷ 0 ∷ 2 ∷ 1 ∷ 2 ∷ []) (omega arith) tt (omega arith) refl
