-- ===== src/Derive/Enums.antt =====
-- Enums come back: the code that both macros of codec-derive/src/lib.rs write for a variant with a tag
-- of an enum without a converter.
use dersp.Prelude.{ℕ, ◌≡◌, true, false, none, some, List, [], ◌∷◌, ◌++◌, All, subst, sym}
use dersp.Exec.{ok}
use Prim.Native.String.{String}
use text.Mathlib.Text.{◌==◌ as str_eq}
use dersp.Codec.Laws.Reads.{Reads, Reads-bind}
use dersp.Derive.Syntax.{collect, enumerate, Syn, Variant, DeriveInput, enum_of}
use dersp.Derive.Attr.{tag_meta, get_variant_tag, extract_converter}
use dersp.Derive.Decode.{Pattern, Construct, decode_variant, decode_data, tag_constants}
use dersp.Derive.Encode.{
  TagArm, tag_expr, impl_variants, field_list, encode_fields, encode_data, FieldPattern, Summand,
  encode_enum,
}
use dersp.Codec.Encode.{encode_unit}
use dersp.Derive.Meaning.{
  compiles_arms, is_exhaustive, run_arms, variant_of, run_sum, find_arm, run_decode, run_encode,
  run_tag_arm, run_fields_arm, derived_decode, derived_encode, Program, Object, run_match,
}
use dersp.Codec.Laws.Emits.{Emits, Emits-+?}
use dersp.Derive.Places.{Emits-bound, IsLaidOut}
use dersp.Derive.Parts.{Part, IsCoded, slots_of, bytes_of}
use dersp.Derive.Variants.{IsAccepted, IsOther, finds_tag, finds_fields, takes_arm}

module _ {syn : Syn} (program : Program syn) (object : Object program) where
  Emits-enum :
      (tag_arms : List (String × TagArm syn)) (arms : List (String × (FieldPattern × List Summand)))
      (tag : syn.Expr) (pattern_of_arm : FieldPattern) (summands : List Summand) (xs ys : List ℕ)
      → compiles_arms program arms ≡ true
      → find_arm program (variant_of program object.path) tag_arms ≡ some (tag_expr none tag)
      → find_arm program (variant_of program object.path) arms ≡ some (pattern_of_arm, summands)
      → Emits (program.encode (program.eval tag)) xs
      → Emits (run_sum program object.slots pattern_of_arm encode_unit summands) ys
      → Emits (run_encode program (encode_enum tag_arms arms) object) (xs ++ ys)
  unfolding run_encode run_tag_arm run_fields_arm
  Emits-enum tag_arms arms tag pattern_of_arm summands xs ys compiled found fields first second =
      rw compiled (
        subst
          (λ t.
            Emits
              (run_arms program object.slots t
                (find_arm program (variant_of program object.path) arms))
              (xs ++ ys))
          (sym found)
          (subst
            (λ f. Emits (run_arms program object.slots (some (tag_expr none tag)) f) (xs ++ ys))
            (sym fields) (Emits-+? first second)))

-- The value of a variant that the parts make.
abbrev pub variant_object :
    {syn : Syn} (program : Program syn)
    → DeriveInput syn
    → Variant syn
    → List (Part program)
    → Object program
variant_object program input chosen ps = record {
  path = input.ident ∷ chosen.ident ∷ [];
  slots = slots_of program ps;
}

module _ {syn : Syn} (program : Program syn) (input : DeriveInput syn)
    (before after : List (Variant syn)) (chosen : Variant syn) (tag : syn.Expr)
    (ps : List (Part program)) (tag_bytes : List ℕ) where
  -- For every enum without a converter and every variant of it with a tag: if the variants before
  -- it have tags that its own does not fit, and other names, those after it are accepted, the
  -- tag's value fits its own pattern and is taken to some bytes and back by the tag's codec, and
  -- so is every field of the variant, which has no attribute, with different names if the fields
  -- have names; and if the compiler takes the quoted code, that is, every variant with named
  -- fields has one that is encoded and none called `write_buffer`, and the match on the tag is
  -- exhaustive, for instance since a variant is marked `unknown`: then the encoder that the macro
  -- Encode writes emits the tag's bytes and those of the fields in their order, in every lawful
  -- buffer, and the decoder that the macro Decode writes takes them off whatever begins with them
  -- and returns the variant.
  pub enum_round_trip :
      extract_converter input ≡ ok none
      → input.body ≡ enum_of (before ++ (chosen ∷ after))
      → get_variant_tag chosen ≡ ok (tag_meta tag)
      → str_eq chosen.ident chosen.ident ≡ true
      → program.fits_pattern (program.eval tag) (program.eval tag) ≡ true
      → All (IsOther program input.ident chosen tag) before
      → All (IsAccepted program input.ident) after
      → compiles_arms program (impl_variants (before ++ (chosen ∷ after))) ≡ true
      → ((arms : List (Pattern syn × Construct syn))
          → collect (decode_variant input.ident none) (enumerate 0 (before ++ (chosen ∷ after)))
            ≡ ok arms
          → is_exhaustive program [] arms ≡ true)
      → Emits (program.encode (program.eval tag)) tag_bytes
      → Reads (program.decode program.tag_type) (program.eval tag) tag_bytes
      → IsLaidOut program chosen.fields ps
      → All (IsCoded program) ps
      → Emits
          (derived_encode program input (variant_object program input chosen ps))
          (tag_bytes ++ bytes_of program ps)
        × Reads
            (derived_decode program input)
            (variant_object program input chosen ps)
            (tag_bytes ++ bytes_of program ps)
  unfolding derived_encode derived_decode encode_data decode_data run_encode run_decode run_tag_arm
      run_fields_arm tag_constants
  enum_round_trip converter body tagged own_name fits_own others rest compiled exhaustive emits
        reads laid_out coded =
      let (tag_arms, e, found) =
        finds_tag program input.ident chosen tag after rest tagged own_name before others in
      let fields =
        finds_fields program input.ident chosen tag after rest tagged own_name before others in
      let (arms, e', takes) =
        takes_arm program input.ident chosen tag after rest tagged own_name fits_own ps laid_out
          coded 0 before others in
      (
        rw (converter, body, e)
            (Emits-enum program (variant_object program input chosen ps) tag_arms
              (impl_variants (before ++ (chosen ∷ after))) tag (field_list chosen.fields)
              (encode_fields false chosen.fields) tag_bytes (bytes_of program ps) compiled found
              fields emits (Emits-bound program chosen.fields ps laid_out coded)),
        rw (converter, body, e', exhaustive arms e')
            (Reads-bind (program.decode program.tag_type) (run_match program [] arms)
              (program.eval tag) (variant_object program input chosen ps) tag_bytes
              (bytes_of program ps) reads takes),
      )
