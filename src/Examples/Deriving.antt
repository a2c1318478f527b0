-- ===== src/Examples/Deriving.antt =====
-- The macros of codec-derive/src/lib.rs on concrete inputs, some of them from codec/tests.
use dersp.Prelude.{◌≡◌, ◌↔◌, refl, true, none, some, [], ◌∷◌, All}
use dersp.Exec.{ok, err}
use dersp.Codec.Read.{fill_buf}
use dersp.Codec.Write.{vec_buffer, vec_fill_from}
use dersp.Codec.Encode.{◌+?◌, encode_unit, encode_u8, encode_u32, encode_bytes, to_be_bytes}
use dersp.Codec.Decode.{decode_u8, decode_u32}
use dersp.Derive.Syntax.{
  Field, DeriveInput, enum_of, struct_of, named_fields, unit_fields, missing_tag, misplaced_unknown,
}
use dersp.Derive.Decode.{decode_data, decode_derive}
use dersp.Derive.Encode.{encode_derive}
use dersp.Derive.Plain.{IsPlainField}
use dersp.Derive.Accepts.{Accepts, struct_accepted_iff}
use dersp.Derive.Attr.{extract_converter}
use dersp.Derive.Meaning.{Object, derived_encode, derived_decode}
use dersp.Proto.Data.Derived.Program.{
  syn, program, byte, word, u8_type, u32_type, plain_field, no_tokens,
}
use dersp.Proto.Data.Derived.Tags.{tagged, unknown_attribute}

abbrev marked : Field syn
marked = record { attrs = unknown_attribute ∷ []; ident = some "tag"; ty = u8_type }

-- `enum UnknownNamed { #[tag(10)] Known, #[unknown] Unknown { #[unknown] tag: u8, extra: u32 } }`
abbrev unknown_named : DeriveInput syn
unknown_named = record {
  attrs = [];
  ident = "UnknownNamed";
  generics = [];
  body = enum_of (
      tagged "Known" 10
      ∷ record {
        attrs = unknown_attribute ∷ [];
        ident = "Unknown";
        fields = named_fields (marked ∷ plain_field "extra" u32_type ∷ []);
      }
      ∷ []);
}

abbrev unknown_object : Object program
unknown_object = record {
  path = "UnknownNamed" ∷ "Unknown" ∷ [];
  slots = (some "tag", byte 99) ∷ (some "extra", word 258) ∷ [];
}

encoded_unknown :
    derived_encode program unknown_named unknown_object vec_buffer []
    ≡ (ok 5, 99 ∷ 0 ∷ 0 ∷ 1 ∷ 2 ∷ [])
unfolding derived_encode ◌+?◌ encode_unit encode_u8 encode_u32 encode_bytes to_be_bytes
    vec_fill_from
encoded_unknown = refl

decoded_unknown :
    derived_decode program unknown_named (99 ∷ 0 ∷ 0 ∷ 1 ∷ 2 ∷ []) ≡ (ok unknown_object, [])
unfolding derived_decode decode_u8 decode_u32 fill_buf
decoded_unknown = refl

decoded_known :
    derived_decode program unknown_named (10 ∷ 7 ∷ [])
    ≡ (ok (record { path = "UnknownNamed" ∷ "Known" ∷ []; slots = [] }), 7 ∷ [])
unfolding derived_decode decode_u8 fill_buf
decoded_known = refl

-- A variant without a tag, and a field that is marked in a struct.
untagged :
    decode_data {syn = syn} "E"
      (enum_of (record { attrs = []; ident = "V"; fields = unit_fields } ∷ []))
      none
    ≡ err missing_tag
unfolding derived_decode
untagged = refl

marked_in_struct :
    decode_data "S" (struct_of (named_fields (plain_field "a" u8_type ∷ marked ∷ []))) none
    ≡ err misplaced_unknown
unfolding derived_decode
marked_in_struct = refl

-- `#[tag] struct S { a: u8, #[unknown] tag: u8 }`: both conditions fail.
abbrev refused_input : DeriveInput syn
refused_input = record {
  attrs = record { path = "tag" ∷ []; tokens = no_tokens } ∷ [];
  ident = "S";
  generics = [];
  body = struct_of (named_fields (plain_field "a" u8_type ∷ marked ∷ []));
}

struct_accepted_iff_example :
    (Accepts (decode_derive refused_input) ↔ (
      Accepts (extract_converter refused_input)
      × All IsPlainField (plain_field "a" u8_type ∷ marked ∷ [])))
    × (Accepts (encode_derive refused_input) ↔ Accepts (extract_converter refused_input))
struct_accepted_iff_example =
    struct_accepted_iff refused_input true (plain_field "a" u8_type ∷ marked ∷ []) refl
