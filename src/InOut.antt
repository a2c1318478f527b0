-- ===== src/InOut.antt =====
-- dersp/src/inout.rs: messages cut from a stream of bytes.
pub mod Framing
pub mod Parsing
pub mod Clean
pub mod Chunks
use dersp.Prelude.{ℕ, zero, suc, ◌+◌, List, [], ◌++◌, ltb, leb, length, take, drop, if◌then◌else◌}
use dersp.Exec.{Exec, Outcome, ok, err, panic, stuck, continue, pure, lift, ◌>>=◌, ◌>>◌}
use dersp.Failure.{Failure, decode_failed, map_err}
use dersp.Net.{Stream, read}
use dersp.Proto.Data.FrameType.{FrameType}
use dersp.Proto.Data.Frames.{Header, decode_header}

abbrev header_size : ℕ
header_size = 5

-- `u16::MAX`
abbrev pub max_tcp_packet_size : ℕ
max_tcp_packet_size = 65535

pub record Message : Type 0 where
  pub ty : FrameType
  pub buffer : List ℕ

pub data PartMessage : Type 0 where
  insufficient_data : PartMessage
  message : Message → PartMessage

-- `struct InputBuffer`
pub record InputBuffer : Type 0 where
  pub bytes : List ℕ

abbrev input_data : List ℕ → InputBuffer → InputBuffer
input_data received b = record { bytes = b.bytes ++ received }

-- The second half of `next_message`, with the header decoded.
unfoldable pub extract : Header → Exec Failure InputBuffer PartMessage
extract header b =
    let message_size = header_size + header.size in
    if leb message_size (length b.bytes)
    then (
      ok (message (record { ty = header.frame_type; buffer = take message_size b.bytes })),
      record { bytes = drop message_size b.bytes },
    )
    else (ok insufficient_data, b)

unfoldable pub next_message : Exec Failure InputBuffer PartMessage
unfolding extract
next_message b =
    if ltb (length b.bytes) header_size
    then (ok insufficient_data, b)
    else continue (map_err decode_failed (decode_header (take header_size b.bytes)).0) extract b

-- `struct DerpReader<T>`. Of its `read_buffer` only what the last `read` wrote is ever used.
pub record DerpReader : Type 0 where
  pub reader : Stream
  pub input_buffer : InputBuffer

-- `DerpReader::new`
abbrev pub new_reader : Stream → DerpReader
new_reader reader = record { reader = reader; input_buffer = record { bytes = [] } }

-- One `read` and `input_data`
unfoldable pub fill : Exec Failure DerpReader (Unit {0})
fill r =
    let (got, reader') = read max_tcp_packet_size r.reader in
    continue got
      (λ chunk r'. (ok tt, record r' { input_buffer = input_data chunk r'.input_buffer }))
      (record r { reader = reader' })

-- One call of `next_message`
unfoldable pub poll : Exec Failure DerpReader PartMessage
poll r = let (part, b) = next_message r.input_buffer in (part, record r { input_buffer = b })

-- The `match` in the loop of `get_next_message`; `again` is the next round.
unfoldable pub on_part :
    Exec Failure DerpReader Message → PartMessage → Exec Failure DerpReader Message
on_part again insufficient_data = fill >> again
on_part again (message m) = pure m

-- The `loop` of `get_next_message`: `fuel` bounds its rounds.
unfoldable pub get_next_message : ℕ → Exec Failure DerpReader Message
get_next_message zero = lift stuck
get_next_message (suc fuel) = poll >>= on_part (get_next_message fuel)
