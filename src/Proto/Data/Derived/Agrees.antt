-- ===== src/Proto/Data/Derived/Agrees.antt =====
-- The codecs that the macros of codec-derive/src/lib.rs write for the types of dersp/src/proto/data.rs
-- and the key of dersp/src/crypto.rs, next to those of this library.
use dersp.Prelude.{if◌then◌else◌, ℕ, ◌≡◌, refl, Bool, true, false, List, ap, fun_ext}
use dersp.Exec.{Outcome, ok, err, panic, stuck, pure, continue, ◌>>=◌}
use dersp.Codec.Read.{Decode, DecodeError}
use dersp.Codec.Encode.{Encode, ◌+?◌, encode_unit}
use dersp.Codec.Decode.{decode_u8}
use dersp.Crypto.Keys.{encode_public_key, decode_public_key}
use dersp.Proto.Data.FrameType.{FrameType, encode_frame_type, decode_frame_type, from_tag}
use dersp.Proto.Data.Frames.{
  encode_frame, decode_frame, encode_server_key, decode_server_key, decode_header,
  encode_client_info, encode_forward_packet, encode_peer_present, encode_recv_packet,
  encode_send_packet, encode_server_info, encode_watch_conns, decode_client_info,
  decode_forward_packet, decode_peer_present, decode_recv_packet, decode_send_packet,
  decode_server_info, decode_watch_conns,
}
use dersp.Derive.Syntax.{DeriveInput, Syn}
use dersp.Derive.Meaning.{Object, Program, derived_decode, derived_encode}
use dersp.Proto.Data.Derived.Program.{program}
use dersp.Proto.Data.Derived.Structs.{
  server_key_input, server_key_object, client_info_input, client_info_object, server_info_input,
  server_info_object, send_packet_input, send_packet_object, recv_packet_input, recv_packet_object,
  forward_packet_input, forward_packet_object, peer_present_input, peer_present_object,
  watch_conns_input, watch_conns_object, header_input, header_object, public_key_input,
  public_key_object,
}
use dersp.Proto.Data.Derived.Generic.{frame_program, frame_input, frame_object}
use dersp.Proto.Data.Derived.Tags.{frame_type_input, frame_type_object}

module _ {syn : Syn} (program : Program syn) {T : Type 0} (input : DeriveInput syn)
    (object : T → Object program) where
  abbrev pub EncodesAs : Encode T → Type 1
  EncodesAs encode = (x : T) → derived_encode program input (object x) ≡ encode x

  abbrev pub DecodesAs : Decode T → Type 0
  DecodesAs decode =
      (s : List ℕ) → derived_decode program input s ≡ (decode >>= λ x. pure (object x)) s

  -- Both macros write the given codec of a type.
  pub record IsDerived (encode : Encode T) (decode : Decode T) : Type 1 where
    pub encodes : EncodesAs encode
    pub decodes : DecodesAs decode

continue_assoc :
    {A B C : Type 0} (p : Outcome DecodeError A × List ℕ) (f : A → Decode B) (g : B → Decode C)
    → continue (continue p.0 f p.1).0 g (continue p.0 f p.1).1
      ≡ continue p.0 (λ a s. continue (f a s).0 g (f a s).1) p.1
continue_assoc (ok a, s) f g = refl
continue_assoc (err e, s) f g = refl
continue_assoc (panic, s) f g = refl
continue_assoc (stuck, s) f g = refl

server_key-IsDerived :
    IsDerived program server_key_input server_key_object encode_server_key decode_server_key
unfolding derived_encode derived_decode encode_server_key decode_server_key
server_key-IsDerived = record { encodes = λ x. refl; decodes = λ s. simp continue_assoc }

client_info-IsDerived :
    IsDerived program client_info_input client_info_object encode_client_info decode_client_info
unfolding derived_encode derived_decode encode_client_info decode_client_info
client_info-IsDerived = record { encodes = λ x. refl; decodes = λ s. simp continue_assoc }

server_info-IsDerived :
    IsDerived program server_info_input server_info_object encode_server_info decode_server_info
unfolding derived_encode derived_decode encode_server_info decode_server_info
server_info-IsDerived = record { encodes = λ x. refl; decodes = λ s. simp continue_assoc }

send_packet-IsDerived :
    IsDerived program send_packet_input send_packet_object encode_send_packet decode_send_packet
unfolding derived_encode derived_decode encode_send_packet decode_send_packet
send_packet-IsDerived = record { encodes = λ x. refl; decodes = λ s. simp continue_assoc }

recv_packet-IsDerived :
    IsDerived program recv_packet_input recv_packet_object encode_recv_packet decode_recv_packet
unfolding derived_encode derived_decode encode_recv_packet decode_recv_packet
recv_packet-IsDerived = record { encodes = λ x. refl; decodes = λ s. simp continue_assoc }

forward_packet-IsDerived :
    IsDerived program forward_packet_input forward_packet_object encode_forward_packet
      decode_forward_packet
unfolding derived_encode derived_decode encode_forward_packet decode_forward_packet
forward_packet-IsDerived = record { encodes = λ x. refl; decodes = λ s. simp continue_assoc }

peer_present-IsDerived :
    IsDerived program peer_present_input peer_present_object encode_peer_present decode_peer_present
unfolding derived_encode derived_decode encode_peer_present decode_peer_present
peer_present-IsDerived = record { encodes = λ x. refl; decodes = λ s. simp continue_assoc }

watch_conns-IsDerived :
    IsDerived program watch_conns_input watch_conns_object encode_watch_conns decode_watch_conns
unfolding derived_encode derived_decode encode_watch_conns decode_watch_conns
watch_conns-IsDerived = record { encodes = λ x. refl; decodes = λ s. simp continue_assoc }

header-decodes : DecodesAs program header_input header_object decode_header
unfolding derived_decode decode_header
header-decodes s = simp continue_assoc

public_key-IsDerived :
    IsDerived program public_key_input public_key_object encode_public_key decode_public_key
unfolding derived_encode derived_decode encode_public_key decode_public_key
public_key-IsDerived = record { encodes = λ x. refl; decodes = λ s. simp continue_assoc }

frame-IsDerived :
    {T : Type 0} (encode : Encode T) (decode : Decode T)
    → IsDerived
        (frame_program encode decode)
        frame_input
        (frame_object encode decode)
        (encode_frame encode)
        (decode_frame decode)
unfolding derived_encode derived_decode encode_frame decode_frame
frame-IsDerived encode decode = record { encodes = λ x. refl; decodes = λ s. simp continue_assoc }

frame_type-encodes : EncodesAs program frame_type_input frame_type_object encode_frame_type
unfolding derived_encode encode_frame_type ◌+?◌ encode_unit
frame_type-encodes FrameType.server_key = refl
frame_type-encodes FrameType.client_info = refl
frame_type-encodes FrameType.server_info = refl
frame_type-encodes FrameType.send_packet = refl
frame_type-encodes FrameType.recv_packet = refl
frame_type-encodes FrameType.keep_alive = refl
frame_type-encodes FrameType.note_preferred = refl
frame_type-encodes FrameType.peer_gone = refl
frame_type-encodes FrameType.peer_present = refl
frame_type-encodes FrameType.forward_packet = refl
frame_type-encodes FrameType.watch_conns = refl
frame_type-encodes FrameType.close_peer = refl
frame_type-encodes FrameType.ping = refl
frame_type-encodes FrameType.pong = refl
frame_type-encodes FrameType.control_message = refl
frame_type-encodes (FrameType.unkonow t) = refl

-- One arm of the match on the tag.
arm_step :
    (b : Bool) (c r : FrameType) (more : Decode (Object program)) (s : List ℕ)
    → more s ≡ (ok (frame_type_object r), s)
    → (if b then pure (frame_type_object c) else more) s
      ≡ (ok (frame_type_object (if b then c else r)), s)
arm_step true c r more s h = refl
arm_step false c r more s h = h

frame_type-decodes : DecodesAs program frame_type_input frame_type_object decode_frame_type
unfolding derived_decode decode_frame_type from_tag
frame_type-decodes s = simp continue_assoc (
    ap (λ k. continue (decode_u8 s).0 k (decode_u8 s).1)
      (fun_ext (λ t. fun_ext (λ left. search arm_step depth 18))))

-- What the code of the derive macros does on each struct of data.rs, Frame around any type with a
-- codec among them, on PublicKey and on FrameType is what the codec of this library does: the
-- derived encoder is the same function of the value, in every buffer, and the derived decoder
-- returns the same value, or error, and leaves the same bytes, whatever it reads; and so for
-- Header, which is only decoded.
pub derived_codecs_lem :
    IsDerived program server_key_input server_key_object encode_server_key decode_server_key
    × IsDerived program client_info_input client_info_object encode_client_info decode_client_info
    × IsDerived program server_info_input server_info_object encode_server_info decode_server_info
    × IsDerived program send_packet_input send_packet_object encode_send_packet decode_send_packet
    × IsDerived program recv_packet_input recv_packet_object encode_recv_packet decode_recv_packet
    × IsDerived program forward_packet_input forward_packet_object encode_forward_packet
        decode_forward_packet
    × IsDerived program peer_present_input peer_present_object encode_peer_present
        decode_peer_present
    × IsDerived program watch_conns_input watch_conns_object encode_watch_conns decode_watch_conns
    × IsDerived program public_key_input public_key_object encode_public_key decode_public_key
    × IsDerived program frame_type_input frame_type_object encode_frame_type decode_frame_type
    × DecodesAs program header_input header_object decode_header
    × ((T : Type 0) (encode : Encode T) (decode : Decode T)
        → IsDerived
            (frame_program encode decode)
            frame_input
            (frame_object encode decode)
            (encode_frame encode)
            (decode_frame decode))
derived_codecs_lem = (
  server_key-IsDerived,
  client_info-IsDerived,
  server_info-IsDerived,
  send_packet-IsDerived,
  recv_packet-IsDerived,
  forward_packet-IsDerived,
  peer_present-IsDerived,
  watch_conns-IsDerived,
  public_key-IsDerived,
  record { encodes = frame_type-encodes; decodes = frame_type-decodes },
  header-decodes,
  λ T encode decode. frame-IsDerived encode decode,
)
