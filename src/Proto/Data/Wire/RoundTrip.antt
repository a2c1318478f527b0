-- ===== src/Proto/Data/Wire/RoundTrip.antt =====
-- Round trips of frames (dersp/src/proto/data.rs): every frame is a type byte, the size of its
-- contents in four bytes, and the contents.
use dersp.Prelude.{ℕ, ◌^◌, ◌≡◌, ◌<◌, refl, ap, ◌∙◌, List, [], ◌∷◌, ◌++◌, length, arith}
use dersp.Exec.{ok, bind-ok}
use dersp.Codec.Read.{Decode}
use dersp.Codec.Types.{wrap}
use dersp.Codec.Write.{vec_buffer}
use dersp.Codec.Write.VecLaws.{vec_lawful}
use dersp.Codec.Encode.{Encode, to_be_bytes, u32_size}
use dersp.Codec.Decode.{decode_u8, decode_u32, decode_size_wrapper}
use dersp.Codec.Laws.Emits.{Emits, Emits-unit, Emits-+?}
use dersp.Codec.Laws.Sized.{Emits-size_wrapper, u32-IsSize}
use dersp.Codec.Laws.Reads.{Reads, Reads-bind, Reads-u8, Reads-u32, Reads-size_wrapper}
use dersp.Proto.Data.FrameType.{FrameType, tag, from_tag, decode_frame_type, unkonow}
use dersp.Proto.Data.Frames.{Frame, encode_frame, decode_frame}
use dersp.Proto.Data.Wire.Codecs.{IsCodec, Emits-frame_type}

-- A frame of the given type around contents whose bytes are `xs`.
abbrev pub wire_frame : FrameType → List ℕ → List ℕ
wire_frame ty xs = tag ty ∷ (to_be_bytes 4 (length xs) ++ xs)

-- The tag of an unknown type is none of the known ones.
abbrev pub IsCanonical : FrameType → Type 0
IsCanonical ty = from_tag (tag ty) ≡ ty

-- Decoding an encoded tag gives the type back, unless an unknown type holds a known tag.
frame_type-IsCanonical :
    (ty : FrameType) → ((t : ℕ) → ty ≡ unkonow t → from_tag t ≡ unkonow t) → IsCanonical ty
unfolding tag from_tag
frame_type-IsCanonical (unkonow t) h = h t refl
frame_type-IsCanonical FrameType.server_key h = refl
frame_type-IsCanonical ty h = refl

-- No two bytes decode to one frame type.
pub tag-from_tag : (t : ℕ) → tag (from_tag t) ≡ t
unfolding tag from_tag
tag-from_tag t = ground arith

Reads-frame_type : (ty : FrameType) → IsCanonical ty → Reads decode_frame_type ty (tag ty ∷ [])
unfolding decode_frame_type
Reads-frame_type ty c rest = bind-ok decode_u8 _ (Reads-u8 (tag ty) rest) ∙ ap (λ y. (ok y, rest)) c

module _ {T : Type 0} (encode : Encode T) (decode : Decode T) (ty : FrameType) (x : T)
    (xs : List ℕ) where
  abbrev framed : Frame T
  framed = record { frame_type = ty; inner = wrap x }

  pub Emits-frame :
      IsCodec encode decode x xs
      → length xs < 2 ^ 32
      → Emits (encode_frame encode framed) (wire_frame ty xs)
  unfolding encode_frame
  Emits-frame c small =
      Emits-+? (Emits-+? Emits-unit (Emits-frame_type ty))
        (Emits-size_wrapper u32_size u32-IsSize encode x xs c.emits small)

  pub Reads-frame :
      IsCodec encode decode x xs
      → length xs < 2 ^ 32
      → IsCanonical ty
      → Reads (decode_frame decode) framed (wire_frame ty xs)
  unfolding decode_frame
  Reads-frame c small canonical =
      Reads-bind decode_frame_type _ ty framed (tag ty ∷ []) _ (Reads-frame_type ty canonical)
        λ rest. bind-ok (decode_size_wrapper decode_u32 decode) _ (
          Reads-size_wrapper decode_u32 4 (length xs) (Reads-u32 (length xs) small) decode x xs refl
            (omega arith) c.drains rest)

  -- What is written into an empty vector decodes to the frame, and leaves whatever follows.
  pub frame_round_trip :
      IsCodec encode decode x xs
      → length xs < 2 ^ 32
      → IsCanonical ty
      → (rest : List ℕ)
      → decode_frame decode ((encode_frame encode framed vec_buffer []).1 ++ rest)
        ≡ (ok framed, rest)
  frame_round_trip c small canonical rest =
      rw ((Emits-frame c small).writes vec_buffer vec_lawful [] refl)
        (Reads-frame c small canonical rest)
