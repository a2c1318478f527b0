-- ===== src/Proto/Messages/Written.antt =====
-- What the writers of dersp/src/proto/mod.rs put on a connection.
use dersp.Prelude.{
  append_assoc, ap, ℕ, ◌+◌, ◌^◌, ◌<◌, ◌≡◌, refl, false, List, [], ◌++◌, length, length-append,
  arith,
}
use dersp.Exec.{ok}
use dersp.Net.{Writer, write_all}
use dersp.Codec.Types.{wrap}
use dersp.Codec.Read.{Decode}
use dersp.Codec.Write.{vec_buffer}
use dersp.Codec.Write.VecLaws.{vec_lawful}
use dersp.Codec.Encode.{Encode}
use dersp.Crypto.Keys.{PublicKey, IsKey}
use dersp.Proto.Data.FrameType.{FrameType}
use dersp.Proto.Data.Frames.{encode_frame, ForwardPacket, frame_forward_packet}
use dersp.Proto.Data.Wire.Codecs.{
  IsCodec, peer_present-IsCodec, forward_packet-IsCodec, watch_conns-IsCodec,
}
use dersp.Proto.Data.Wire.RoundTrip.{wire_frame, Emits-frame}
use dersp.Proto.Messages.{write_frame, write_peer_present, write_forward_packet, write_watch_conns}

-- The writer with more bytes written, if its connection is sound.
abbrev pub appended : Writer → List ℕ → Writer
appended w xs = record w { written = w.written ++ xs }

pub appended-append :
    (w : Writer) (xs ys : List ℕ) → appended (appended w xs) ys ≡ appended w (xs ++ ys)
appended-append w xs ys = ap (λ zs. record w { written = zs }) (append_assoc w.written xs ys)

module _ {T : Type 0} (encode : Encode T) (decode : Decode T) (ty : FrameType) (x : T)
    (xs : List ℕ) where
  encoded_in_vec :
      IsCodec encode decode x xs
      → length xs < 2 ^ 32
      → encode_frame encode (record { frame_type = ty; inner = wrap x }) vec_buffer []
        ≡ (ok (length (wire_frame ty xs)), wire_frame ty xs)
  encoded_in_vec c small =
      (Emits-frame encode decode ty x xs c small).writes vec_buffer vec_lawful [] refl

  -- A frame is written whole on a sound connection.
  pub write_frame_lem :
      (w : Writer)
      → IsCodec encode decode x xs
      → length xs < 2 ^ 32
      → w.is_broken ≡ false
      → write_frame encode (record { frame_type = ty; inner = wrap x }) w
        ≡ (ok tt, appended w (wire_frame ty xs))
  unfolding write_frame write_all
  write_frame_lem w c small sound = rw (encoded_in_vec c small, sound)

pub write_peer_present_lem :
    (k : PublicKey) (w : Writer)
    → IsKey k
    → w.is_broken ≡ false
    → write_peer_present k w ≡ (ok tt, appended w (wire_frame FrameType.peer_present k.bytes))
unfolding write_peer_present
write_peer_present_lem k w h sound =
    write_frame_lem _ _ FrameType.peer_present _ k.bytes w
      (peer_present-IsCodec (record { public_key = k }) h) (omega (arith, h.size)) sound

pub write_forward_packet_lem :
    (p : ForwardPacket) (w : Writer)
    → IsKey p.source
    → IsKey p.target
    → length p.payload + 64 < 2 ^ 32
    → w.is_broken ≡ false
    → write_forward_packet p w ≡ (
      ok tt,
      appended w
          (wire_frame FrameType.forward_packet ((p.source.bytes ++ p.target.bytes) ++ p.payload)),
    )
unfolding write_forward_packet frame_forward_packet
write_forward_packet_lem p w hs ht small sound =
    write_frame_lem _ _ FrameType.forward_packet p _ w (forward_packet-IsCodec p hs ht)
      (omega (
        arith,
        hs.size,
        ht.size,
        length-append (p.source.bytes ++ p.target.bytes) p.payload,
        length-append p.source.bytes p.target.bytes,
      ))
      sound

pub write_watch_conns_lem :
    (w : Writer)
    → w.is_broken ≡ false
    → write_watch_conns w ≡ (ok tt, appended w (wire_frame FrameType.watch_conns []))
unfolding write_watch_conns
write_watch_conns_lem w sound =
    write_frame_lem _ _ FrameType.watch_conns _ [] w (watch_conns-IsCodec (record { bytes = [] }))
      (omega arith) sound
