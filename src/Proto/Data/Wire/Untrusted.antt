-- ===== src/Proto/Data/Wire/Untrusted.antt =====
-- The frame decoders of dersp/src/proto/data.rs on whatever bytes a peer sends.
use dersp.Prelude.{ℕ, ◌+◌, ◌≤◌, arith}
use dersp.Exec.{pure, ◌>>=◌}
use dersp.Codec.Read.{Decode}
use dersp.Codec.Decode.{decode_u8, decode_u32, decode_array, decode_size_wrapper}
use dersp.Codec.Laws.Safe.{
  IsSafe, IsSafe-pure, IsSafe-bind, IsSafe-le, IsSafe-array, IsSafe-u8, IsSafe-u32, IsSafe-vec,
  IsSafe-size_wrapper,
}
use dersp.Crypto.Keys.{decode_public_key}
use dersp.Proto.Data.FrameType.{from_tag, decode_frame_type}
use dersp.Proto.Data.Frames.{
  decode_frame, decode_bytes_vec, decode_server_key, decode_client_info, decode_server_info,
  decode_send_packet, decode_recv_packet, decode_forward_packet, decode_peer_present,
  decode_watch_conns, decode_header,
}

-- The fields of a struct, one after the other.
module _ {A B : Type 0} (m n : ℕ) (decode : Decode A) (f : A → Decode B) where
  then-IsSafe :
      (k : ℕ) → k ≤ m + n → IsSafe m decode → ((a : A) → IsSafe n (f a)) → IsSafe k (decode >>= f)
  then-IsSafe k le h g = IsSafe-le (m + n) k (decode >>= f) le (IsSafe-bind m n decode f h g)

module _ {A B : Type 0} (n : ℕ) (decode : Decode A) (make : A → B) where
  last-IsSafe : IsSafe n decode → IsSafe n (decode >>= λ a. pure (make a))
  last-IsSafe h = then-IsSafe n 0 decode _ n (omega arith) h (λ a. IsSafe-pure (make a))

IsSafe-public_key : IsSafe 32 decode_public_key
unfolding decode_public_key
IsSafe-public_key = last-IsSafe 32 (decode_array 32) _ (IsSafe-array 32)

IsSafe-bytes_vec : IsSafe 0 decode_bytes_vec
IsSafe-bytes_vec = IsSafe-vec decode_u8 IsSafe-u8

IsSafe-frame_type : IsSafe 1 decode_frame_type
unfolding decode_frame_type
IsSafe-frame_type = last-IsSafe 1 decode_u8 from_tag IsSafe-u8

IsSafe-header : IsSafe 5 decode_header
unfolding decode_header
IsSafe-header =
    then-IsSafe 1 4 decode_frame_type _ 5 (omega arith) IsSafe-frame_type
      (λ ty. last-IsSafe 4 decode_u32 _ IsSafe-u32)

IsSafe-server_key : IsSafe 0 decode_server_key
unfolding decode_server_key
IsSafe-server_key =
    then-IsSafe 8 32 (decode_array 8) _ 0 (omega arith) (IsSafe-array 8)
      λ magic. last-IsSafe 32 decode_public_key _ IsSafe-public_key

IsSafe-client_info : IsSafe 0 decode_client_info
unfolding decode_client_info
IsSafe-client_info = then-IsSafe 32 24 decode_public_key _ 0 (omega arith) IsSafe-public_key λ k.
    then-IsSafe 24 0 (decode_array 24) _ 24 (omega arith) (IsSafe-array 24)
      λ nonce. last-IsSafe 0 decode_bytes_vec _ IsSafe-bytes_vec

IsSafe-server_info : IsSafe 0 decode_server_info
unfolding decode_server_info
IsSafe-server_info = last-IsSafe 0 decode_bytes_vec _ IsSafe-bytes_vec

IsSafe-send_packet : IsSafe 0 decode_send_packet
unfolding decode_send_packet
IsSafe-send_packet =
    then-IsSafe 32 0 decode_public_key _ 0 (omega arith) IsSafe-public_key
      λ k. last-IsSafe 0 decode_bytes_vec _ IsSafe-bytes_vec

IsSafe-recv_packet : IsSafe 0 decode_recv_packet
unfolding decode_recv_packet
IsSafe-recv_packet =
    then-IsSafe 32 0 decode_public_key _ 0 (omega arith) IsSafe-public_key
      λ k. last-IsSafe 0 decode_bytes_vec _ IsSafe-bytes_vec

IsSafe-forward_packet : IsSafe 0 decode_forward_packet
unfolding decode_forward_packet
IsSafe-forward_packet =
    then-IsSafe 32 32 decode_public_key _ 0 (omega arith) IsSafe-public_key λ source.
      then-IsSafe 32 0 decode_public_key _ 32 (omega arith) IsSafe-public_key
        λ target. last-IsSafe 0 decode_bytes_vec _ IsSafe-bytes_vec

IsSafe-peer_present : IsSafe 0 decode_peer_present
unfolding decode_peer_present
IsSafe-peer_present =
    IsSafe-le 32 0 _ (omega arith) (last-IsSafe 32 decode_public_key _ IsSafe-public_key)

IsSafe-watch_conns : IsSafe 0 decode_watch_conns
unfolding decode_watch_conns
IsSafe-watch_conns = last-IsSafe 0 decode_bytes_vec _ IsSafe-bytes_vec

IsSafe-frame : {T : Type 0} (decode : Decode T) → IsSafe 0 decode → IsSafe 5 (decode_frame decode)
unfolding decode_frame
IsSafe-frame decode h = then-IsSafe 1 4 decode_frame_type _ 5 (omega arith) IsSafe-frame_type λ ty.
    last-IsSafe 4 (decode_size_wrapper decode_u32 decode) _
      (IsSafe-size_wrapper 4 decode_u32 decode IsSafe-u32 h)

-- On any bytes at all, the decoder of the header and of every kind of frame ends with a value or
-- an error, without a panic or a loop that does not end; what it leaves are the last of the bytes
-- it was given, and if it succeeds it has taken at least five.
pub frames-AreSafe :
    IsSafe 5 decode_header
    × IsSafe 5 (decode_frame decode_server_key)
    × IsSafe 5 (decode_frame decode_client_info)
    × IsSafe 5 (decode_frame decode_server_info)
    × IsSafe 5 (decode_frame decode_send_packet)
    × IsSafe 5 (decode_frame decode_recv_packet)
    × IsSafe 5 (decode_frame decode_forward_packet)
    × IsSafe 5 (decode_frame decode_peer_present)
    × IsSafe 5 (decode_frame decode_watch_conns)
frames-AreSafe = (
  IsSafe-header,
  IsSafe-frame _ IsSafe-server_key,
  IsSafe-frame _ IsSafe-client_info,
  IsSafe-frame _ IsSafe-server_info,
  IsSafe-frame _ IsSafe-send_packet,
  IsSafe-frame _ IsSafe-recv_packet,
  IsSafe-frame _ IsSafe-forward_packet,
  IsSafe-frame _ IsSafe-peer_present,
  IsSafe-frame _ IsSafe-watch_conns,
)
