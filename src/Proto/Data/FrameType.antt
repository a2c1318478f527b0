-- ===== src/Proto/Data/FrameType.antt =====
-- `FrameType` of dersp/src/proto/data.rs.
use dersp.Prelude.{ℕ, List, [], ◌∷◌, ◌==◌, if◌then◌else◌}
use dersp.Exec.{ok, pure, ◌>>=◌, Outcome}
use dersp.Codec.Read.{Decode}
use dersp.Codec.Encode.{Encode, ◌+?◌, encode_unit, encode_u8}
use dersp.Codec.Decode.{decode_u8}

-- The source spells the last constructor so.
pub data FrameType : Type 0 where
  server_key client_info server_info send_packet recv_packet keep_alive : FrameType
  note_preferred peer_gone peer_present forward_packet watch_conns : FrameType
  close_peer ping pong control_message : FrameType
  unkonow : ℕ → FrameType

-- The `#[tag]` of a variant, and the field with `#[unknown]` of the last one.
unfoldable pub tag : FrameType → ℕ
tag server_key = 0x01
tag client_info = 0x02
tag server_info = 0x03
tag send_packet = 0x04
tag recv_packet = 0x05
tag keep_alive = 0x06
tag note_preferred = 0x07
tag peer_gone = 0x08
tag peer_present = 0x09
tag forward_packet = 0x0A
tag watch_conns = 0x10
tag close_peer = 0x11
tag ping = 0x12
tag pong = 0x13
tag control_message = 0x14
tag (unkonow t) = t

-- The arms of the derived `decode`, in the source's order.
unfoldable pub from_tag : ℕ → FrameType
from_tag t =
    if t == 0x01
    then server_key
    else if t == 0x02
    then client_info
    else if t == 0x03
    then server_info
    else if t == 0x04
    then send_packet
    else if t == 0x05
    then recv_packet
    else if t == 0x06
    then keep_alive
    else if t == 0x07
    then note_preferred
    else if t == 0x08
    then peer_gone
    else if t == 0x09
    then peer_present
    else if t == 0x0A
    then forward_packet
    else if t == 0x10
    then watch_conns
    else if t == 0x11
    then close_peer
    else if t == 0x12
    then ping
    else if t == 0x13
    then pong
    else if t == 0x14
    then control_message
    else unkonow t

-- No variant has a field left to encode, so each arm adds 0 to the tag.
unfoldable pub encode_frame_type : Encode FrameType
unfolding tag
encode_frame_type ty = encode_u8 (tag ty) +? encode_unit

unfoldable pub decode_frame_type : Decode FrameType
unfolding from_tag
decode_frame_type = do t ← decode_u8; pure (from_tag t)

abbrev unwrap_or : {E A : Type 0} → A → Outcome E A → A
unwrap_or d (ok a) = a
unwrap_or d _ = d

-- `FrameType::get_frame_type`: by the first byte, and `Unkonow(0)` of an empty buffer.
unfoldable pub get_frame_type : List ℕ → FrameType
get_frame_type [] = unkonow 0
get_frame_type (first_byte ∷ rest) = unwrap_or (unkonow 0) (decode_frame_type (first_byte ∷ [])).0
