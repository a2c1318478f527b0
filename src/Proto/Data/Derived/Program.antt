-- ===== src/Proto/Data/Derived/Program.antt =====
-- The values and the code that the derive macros of codec-derive/src/lib.rs meet in dersp/src/proto/data.rs.
use dersp.Prelude.{
  ℕ, Bool, true, false, Option, none, some, List, [], ◌∷◌, ◌==◌, ◌||◌, ◌&&◌, zero, suc,
}
use dersp.Exec.{pure, ◌>>=◌}
use Prim.Native.String.{String}
use dersp.Codec.Read.{Decode}
use dersp.Codec.Encode.{Encoding, encode_u8, encode_u32, encode_array}
use dersp.Codec.Decode.{decode_u8, decode_u32, decode_array}
use dersp.Crypto.Keys.{PublicKey, encode_public_key, decode_public_key}
use dersp.Proto.Data.FrameType.{FrameType, encode_frame_type, decode_frame_type}
use dersp.Proto.Data.Frames.{encode_bytes_vec, decode_bytes_vec}
use dersp.Derive.Syntax.{Syn, Field, named_fields, struct_of, DeriveInput, unnamed_fields}
use dersp.Derive.Meaning.{Program}

-- An attribute has no tokens, or a number in parentheses. A constant expression is a number.
pub data NumberTokens : Type 0 where
  no_tokens : NumberTokens
  in_parens : ℕ → NumberTokens

pub data FieldType : Type 0 where
  u8_type u32_type bytes_type key_type frame_type_type : FieldType
  array_type : ℕ → FieldType

pub data FieldValue : Type 0 where
  byte word : ℕ → FieldValue
  array : ℕ → List ℕ → FieldValue
  bytes : List ℕ → FieldValue
  key : PublicKey → FieldValue
  frame_type : FrameType → FieldValue

abbrev pub number_in : NumberTokens → Option ℕ
number_in no_tokens = none
number_in (in_parens n) = some n

abbrev pub has_number : NumberTokens → Bool
has_number no_tokens = false
has_number (in_parens n) = true

abbrev pub syn : Syn
syn = record {
  Tokens = NumberTokens;
  Expr = ℕ;
  Ty = FieldType;
  has_tokens = has_number;
  parse_expr = number_in;
  parse_path = λ tokens. none;
}

abbrev pub decode_value : FieldType → Decode FieldValue
decode_value u8_type = do x ← decode_u8; pure (byte x)
decode_value u32_type = do x ← decode_u32; pure (word x)
decode_value bytes_type = do x ← decode_bytes_vec; pure (bytes x)
decode_value key_type = do x ← decode_public_key; pure (key x)
decode_value frame_type_type = do x ← decode_frame_type; pure (frame_type x)
decode_value (array_type n) = do x ← decode_array n; pure (array n x)

abbrev pub encode_value : FieldValue → Encoding
encode_value (byte x) = encode_u8 x
encode_value (word x) = encode_u32 x
encode_value (array n x) = encode_array n x
encode_value (bytes x) = encode_bytes_vec x
encode_value (key x) = encode_public_key x
encode_value (frame_type x) = encode_frame_type x

abbrev pub same_byte : FieldValue → FieldValue → Bool
same_byte (byte x) (byte y) = y == x
same_byte _ _ = false

-- The patterns of a match on a byte cover it if they are all the bytes.
abbrev has_byte : ℕ → List FieldValue → Bool
has_byte n [] = false
has_byte n (v ∷ rest) = same_byte v (byte n) || has_byte n rest

abbrev covers_bytes : ℕ → List FieldValue → Bool
covers_bytes zero vs = true
covers_bytes (suc n) vs = has_byte n vs && covers_bytes n vs

abbrev pub program : Program syn
program = record {
  Value = FieldValue;
  decode = decode_value;
  encode = encode_value;
  tag_type = u8_type;
  eval = byte;
  const_from = λ path e. byte e;
  fits_pattern = same_byte;
  covers = covers_bytes 256;
}

abbrev pub plain_field : String → FieldType → Field syn
plain_field name ty = record { attrs = []; ident = some name; ty = ty }

abbrev pub struct_input : String → List (Field syn) → DeriveInput syn
struct_input name fields = record {
  attrs = [];
  ident = name;
  generics = [];
  body = struct_of (named_fields fields);
}

-- A struct with one field that has no name.
abbrev pub tuple_input : String → FieldType → DeriveInput syn
tuple_input name ty = record {
  attrs = [];
  ident = name;
  generics = [];
  body = struct_of (unnamed_fields (record { attrs = []; ident = none; ty = ty } ∷ []));
}
