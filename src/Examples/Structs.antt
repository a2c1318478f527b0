-- ===== src/Examples/Structs.antt =====
-- A struct with two named fields, through both macros (codec-derive/src/lib.rs).
use dersp.Prelude.{refl, none, [], ◌∷◌, List, arith}
use dersp.Codec.Laws.Emits.{Emits}
use dersp.Codec.Laws.Containers.{Emits-u8, Emits-u32}
use dersp.Codec.Laws.Reads.{Reads, Reads-u8, Reads-u32}
use dersp.Codec.Encode.{to_be_bytes}
use dersp.Derive.Syntax.{DeriveInput, named_fields}
use dersp.Derive.Meaning.{derived_encode, derived_decode}
use dersp.Derive.Attr.{is_unknown, extract_converter}
use dersp.Derive.Parts.{Part, IsCoded, fields_of, bytes_of}
use dersp.Derive.RoundTrip.{object_of, struct_round_trip}
use dersp.Proto.Data.Derived.Program.{
  syn, program, byte, word, u8_type, u32_type, plain_field, struct_input,
}

abbrev pub kind : Part program
kind = record { field = plain_field "kind" u8_type; value = byte 7; bytes = 7 ∷ [] }

abbrev pub size : Part program
size = record { field = plain_field "size" u32_type; value = word 258; bytes = to_be_bytes 4 258 }

abbrev pub parts : List (Part program)
parts = kind ∷ size ∷ []

-- `struct Head { kind: u8, size: u32 }`
abbrev head : DeriveInput syn
head = struct_input "Head" (fields_of program parts)

pub kind-IsCoded : IsCoded program kind
unfolding is_unknown
kind-IsCoded = record {
  plain = refl;
  emits = Emits-u8 7;
  reads = λ rest. rw (Reads-u8 7 rest) refl;
}

pub size-IsCoded : IsCoded program size
unfolding is_unknown
size-IsCoded = record {
  plain = refl;
  emits = Emits-u32 258;
  reads = λ rest. rw (Reads-u32 258 (omega arith) rest) refl;
}

struct_round_trip_example :
    Emits (derived_encode program head (object_of program "Head" parts)) (bytes_of program parts)
    × Reads (derived_decode program head) (object_of program "Head" parts) (bytes_of program parts)
unfolding extract_converter
struct_round_trip_example =
    struct_round_trip program head none (named_fields (fields_of program parts)) parts refl refl
      (refl, (refl, (refl, tt), (refl, tt, tt))) (kind-IsCoded, (size-IsCoded, tt))
