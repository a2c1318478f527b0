-- ===== src/Proto/Messages.antt =====
-- The messages of dersp/src/proto/mod.rs that are single frames.
pub mod Written
use dersp.Prelude.{ℕ, Bool, List, []}
use dersp.Exec.{abort, lift, Exec, Outcome, ok, err, panic, stuck}
use dersp.Failure.{Failure, decode_failed}
use dersp.Net.{Writer, write_all}
use dersp.Codec.Read.{DecodeError}
use dersp.Codec.Types.{into_inner, wrap}
use dersp.Codec.Write.{vec_buffer, Infallible}
use dersp.Codec.Encode.{Encode}
use dersp.Crypto.Keys.{PublicKey}
use dersp.Proto.Data.FrameType
use dersp.Proto.Data.FrameType.{FrameType}
use dersp.Proto.Data.Frames.{
  Frame, encode_frame, PeerPresent, encode_peer_present, ForwardPacket, encode_forward_packet,
  frame_forward_packet, encode_watch_conns, default_watch_conns, WatchConns,
}

-- `let mut buf = Vec::new(); frame.encode(&mut buf)?; writer.write_all(&buf).await`
unfoldable write_encoded : Outcome Infallible ℕ → List ℕ → Exec Failure Writer (Unit {0})
write_encoded (ok n) buf = write_all buf
write_encoded (err e) buf = elim e [ ]
write_encoded panic buf = abort
write_encoded stuck buf = lift stuck

unfoldable pub write_frame : {T : Type 0} → Encode T → Frame T → Exec Failure Writer (Unit {0})
unfolding write_encoded
write_frame encode frame =
    let (r, buf) = encode_frame encode frame vec_buffer [] in write_encoded r buf

unfoldable pub write_peer_present : PublicKey → Exec Failure Writer (Unit {0})
write_peer_present public_key = write_frame encode_peer_present (record {
  frame_type = FrameType.peer_present;
  inner = wrap (record { public_key = public_key });
})

unfoldable pub write_forward_packet : ForwardPacket → Exec Failure Writer (Unit {0})
unfolding frame_forward_packet
write_forward_packet forward_packet =
    write_frame encode_forward_packet (frame_forward_packet forward_packet)

unfoldable pub write_watch_conns : Exec Failure Writer (Unit {0})
write_watch_conns =
    write_frame encode_watch_conns
      (record { frame_type = FrameType.watch_conns; inner = wrap default_watch_conns })

-- `Frame::<T>::decode(&mut buf).map_err(…)?.inner.into_inner()`
unfoldable pub unframe : {T : Type 0} → Outcome DecodeError (Frame T) → Outcome Failure T
unframe (ok frame) = ok (into_inner frame.inner)
unframe (err e) = err decode_failed
unframe panic = panic
unframe stuck = stuck
