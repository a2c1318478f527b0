-- ===== src/Examples/Enums.antt =====
-- An enum with a variant of each kind, through both macros (codec-derive/src/lib.rs).
use dersp.Prelude.{◌≡◌, List, Bool, true, false, sym, ap, refl, none, [], ◌∷◌, ◌++◌}
use dersp.Codec.Laws.Emits.{Emits}
use dersp.Codec.Laws.Containers.{Emits-u8}
use dersp.Codec.Laws.Reads.{Reads, Reads-u8}
use dersp.Exec.{ok, stuck}
use dersp.Codec.Write.{vec_buffer}
use dersp.Derive.Syntax.{
  Result, enumerate, collect, DeriveInput, Variant, enum_of, named_fields, unnamed_fields,
}
use dersp.Derive.Encode.{impl_variants}
use dersp.Derive.Meaning.{compiles_arms, is_exhaustive, derived_encode, derived_decode}
use dersp.Derive.Attr.{is_unknown, extract_converter, get_variant_tag, unknown_meta}
use dersp.Derive.Decode.{
  Pattern, Construct, decode_variant, construct_unit, construct_unnamed, init_meta, decode_fields,
}
use dersp.Derive.Parts.{fields_of, bytes_of}
use dersp.Derive.Variants.{IsAccepted, IsOther}
use dersp.Derive.Enums.{variant_object, enum_round_trip}
use dersp.Proto.Data.Derived.Program.{syn, program, in_parens, u8_type}
use dersp.Proto.Data.Derived.Tags.{tagged, unknown_attribute}
use dersp.Examples.Structs.{parts, kind-IsCoded, size-IsCoded}

-- `enum Event { #[tag(1)] Ping, #[tag(2)] Data { kind: u8, size: u32 }, #[unknown] Other(#[unknown] u8) }`
abbrev ping : Variant syn
ping = tagged "Ping" 1

abbrev data_variant : Variant syn
data_variant = record {
  attrs = record { path = "tag" ∷ []; tokens = in_parens 2 } ∷ [];
  ident = "Data";
  fields = named_fields (fields_of program parts);
}

abbrev other : Variant syn
other = record {
  attrs = unknown_attribute ∷ [];
  ident = "Other";
  fields =
      unnamed_fields (record { attrs = unknown_attribute ∷ []; ident = none; ty = u8_type } ∷ []);
}

abbrev event : DeriveInput syn
event = record {
  attrs = [];
  ident = "Event";
  generics = [];
  body = enum_of (ping ∷ data_variant ∷ other ∷ []);
}

ping-IsOther : IsOther program "Event" data_variant 2 ping
unfolding get_variant_tag decode_fields
ping-IsOther = record {
  expr = 1;
  tagged = refl;
  construct = construct_unit ("Event" ∷ "Ping" ∷ []);
  accepted = refl;
  other_tag = refl;
  other_name = refl;
}

other-IsAccepted : IsAccepted program "Event" other
unfolding get_variant_tag decode_fields is_unknown collect
other-IsAccepted = record {
  meta = unknown_meta;
  tagged = refl;
  construct = construct_unnamed ("Event" ∷ "Other" ∷ []) (init_meta none unknown_meta ∷ []);
  accepted = refl;
}

abbrev arms_exhaustive : Result (List (Pattern syn × Construct syn)) → Bool
arms_exhaustive (ok arms) = is_exhaustive program [] arms
arms_exhaustive _ = false

event-exhaustive :
    (arms : List (Pattern syn × Construct syn))
    → collect (decode_variant "Event" none) (enumerate 0 (ping ∷ data_variant ∷ other ∷ []))
      ≡ ok arms
    → is_exhaustive program [] arms ≡ true
unfolding collect decode_variant get_variant_tag is_unknown is_exhaustive
event-exhaustive arms e = sym (ap arms_exhaustive e)

-- `{ , .. }` is quoted for a variant none of whose named fields is encoded: the code is refused.
abbrev hollow : DeriveInput syn
hollow = record {
  attrs = [];
  ident = "Hollow";
  generics = [];
  body = enum_of (
      record {
        attrs = record { path = "tag" ∷ []; tokens = in_parens 1 } ∷ [];
        ident = "Empty";
        fields = named_fields [];
      }
      ∷ other
      ∷ []);
}

hollow_refused :
    derived_encode program hollow
      (record { path = "Hollow" ∷ "Empty" ∷ []; slots = [] })
      vec_buffer
      []
    ≡ (stuck, [])
unfolding derived_encode
hollow_refused = refl

-- Without a variant that is `unknown` the match on the tag is not exhaustive.
abbrev closed_enum : DeriveInput syn
closed_enum = record { attrs = []; ident = "Closed"; generics = []; body = enum_of (ping ∷ []) }

closed_refused : derived_decode program closed_enum (1 ∷ []) ≡ (stuck, 1 ∷ [])
unfolding derived_decode
closed_refused = refl

enum_round_trip_example :
    Emits
      (derived_encode program event (variant_object program event data_variant parts))
      ((2 ∷ []) ++ bytes_of program parts)
    × Reads
        (derived_decode program event)
        (variant_object program event data_variant parts)
        ((2 ∷ []) ++ bytes_of program parts)
unfolding extract_converter get_variant_tag compiles_arms impl_variants is_unknown
enum_round_trip_example =
    enum_round_trip program event (ping ∷ []) (other ∷ []) data_variant 2 parts (2 ∷ []) refl refl
      refl refl refl (ping-IsOther, tt) (other-IsAccepted, tt) refl event-exhaustive (Emits-u8 2)
      (λ rest. rw (Reads-u8 2 rest) refl) (refl, (refl, (refl, tt), (refl, tt, tt)))
      (kind-IsCoded, (size-IsCoded, tt))
