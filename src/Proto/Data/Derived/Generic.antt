-- ===== src/Proto/Data/Derived/Generic.antt =====
-- `Frame<T>` of dersp/src/proto/data.rs as the input of the macros of codec-derive/src/lib.rs, for any
-- type T with its codec.
use dersp.Prelude.{ℕ, false, none, some, [], ◌∷◌}
use dersp.Exec.{pure, ◌>>=◌}
use dersp.Codec.Read.{Decode}
use dersp.Codec.Encode.{Encode, Encoding, encode_size_wrapper, u32_size}
use dersp.Codec.Decode.{decode_u32, decode_size_wrapper}
use dersp.Codec.Types.{SizeWrapper}
use dersp.Proto.Data.FrameType.{FrameType, encode_frame_type, decode_frame_type}
use dersp.Proto.Data.Frames.{Frame}
use dersp.Derive.Syntax.{Syn, DeriveInput, named_fields, struct_of, type_param}
use dersp.Derive.Meaning.{Program, Object}
use dersp.Proto.Data.Derived.Program.{NumberTokens, has_number, number_in}

-- `FrameType`, and `SizeWrapper<u32, T>`.
pub data FrameField : Type 0 where
  kind_type wrapper_type : FrameField

pub data FrameValue (T : Type 0) : Type 0 where
  kind : FrameType → FrameValue T
  wrapper : SizeWrapper T → FrameValue T

abbrev pub frame_syn : Syn
frame_syn = record {
  Tokens = NumberTokens;
  Expr = ℕ;
  Ty = FrameField;
  has_tokens = has_number;
  parse_expr = number_in;
  parse_path = λ tokens. none;
}

-- `#[derive(Decode, Encode)] struct Frame<T> { frame_type: FrameType, inner: SizeWrapper<u32, T> }`
abbrev pub frame_input : DeriveInput frame_syn
frame_input = record {
  attrs = [];
  ident = "Frame";
  generics = type_param "T" [] ∷ [];
  body = struct_of (
      named_fields (
        record { attrs = []; ident = some "frame_type"; ty = kind_type }
        ∷ record { attrs = []; ident = some "inner"; ty = wrapper_type }
        ∷ []));
}

module _ {T : Type 0} (encode : Encode T) (decode : Decode T) where
  abbrev pub decode_field_value : FrameField → Decode (FrameValue T)
  decode_field_value kind_type = do x ← decode_frame_type; pure (kind x)
  decode_field_value wrapper_type = do x ← decode_size_wrapper decode_u32 decode; pure (wrapper x)

  abbrev pub encode_field_value : FrameValue T → Encoding
  encode_field_value (kind x) = encode_frame_type x
  encode_field_value (wrapper x) = encode_size_wrapper u32_size encode x

  abbrev pub frame_program : Program frame_syn
  frame_program = record {
    Value = FrameValue T;
    decode = decode_field_value;
    encode = encode_field_value;
    tag_type = kind_type;
    eval = λ e. kind FrameType.keep_alive;
    const_from = λ path e. kind FrameType.keep_alive;
    fits_pattern = λ v tag. false;
    covers = λ vs. false;
  }

  abbrev pub frame_object : Frame T → Object frame_program
  frame_object x = record {
    path = "Frame" ∷ [];
    slots = (some "frame_type", kind x.frame_type) ∷ (some "inner", wrapper x.inner) ∷ [];
  }
