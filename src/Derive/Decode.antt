-- ===== src/Derive/Decode.antt =====
-- The macro `Decode` of codec-derive/src/lib.rs. The code that it quotes is a value of the data types
-- below, with one constructor for each form of it.
use dersp.Prelude.{ℕ, Bool, true, false, Option, none, some, List, [], ◌∷◌, ◌++◌, if◌then◌else◌}
use dersp.Exec.{ok, err}
use Prim.Native.String.{String}
use dersp.Derive.Syntax.{
  Syn, Result, ◌>>=◌, collect, enumerate, flatten, Field, Fields, named_fields, unnamed_fields,
  unit_fields, Variant, Data, struct_of, enum_of, union_of, misplaced_unknown, not_for_unions,
  GenericParam, type_param, other_param, DeriveInput,
}
use dersp.Derive.Attr.{
  CodecMeta, unknown_meta, tag_meta, Converter, is_unknown, get_variant_tag, is_unknown_meta,
  opt_unknown, extract_converter,
}

module _ (syn : Syn) where
  -- A field's initialiser: `meta`, or `<ty as ::codec::Decode>::decode(read_buffer)?`; with the
  -- field's name if it has one.
  pub data FieldInit : Type 0 where
    init_meta : Option String → CodecMeta syn → FieldInit
    init_decode : Option String → syn.Ty → FieldInit

  -- `Ok(path { … })`, `Ok(path(…))` and `Ok(path)`
  pub data Construct : Type 0 where
    construct_named : List String → List FieldInit → Construct
    construct_unnamed : List String → List FieldInit → Construct
    construct_unit : List String → Construct

  -- `const _index: converter = converter::const_from(tag);`
  pub record TagConstant : Type 0 where
    pub index : ℕ
    pub converter : Converter syn
    pub tag : CodecMeta syn

  -- `_index` or the tag, before the arrow of an arm.
  pub data Pattern : Type 0 where
    constant_pattern : ℕ → Pattern
    meta_pattern : CodecMeta syn → Pattern

  -- The body of `decode`: a struct, or `let tag = …?;`, constants and `match tag { … }`.
  pub data DecodeBody : Type 0 where
    decode_struct : Construct → DecodeBody
    decode_enum : List TagConstant → List (Pattern × Construct) → DecodeBody

  -- `impl<generics> ::codec::Decode for name { … }`
  pub record DecodeImpl : Type 0 where
    pub generics : List (GenericParam syn)
    pub name : String
    pub body : DecodeBody

-- `type_param.bounds.push(bound)`
unfoldable pub add_trait_bounds :
    {syn : Syn} → List String → List (GenericParam syn) → List (GenericParam syn)
add_trait_bounds bound [] = []
add_trait_bounds bound (type_param name bounds ∷ rest) =
    type_param name (bounds ++ (bound ∷ [])) ∷ add_trait_bounds bound rest
add_trait_bounds bound (other_param name ∷ rest) = other_param name ∷ add_trait_bounds bound rest

module _ {syn : Syn} where
  -- `match (attr::is_unknown(field)?, &unknown)`
  unfoldable pub init_field : Field syn → Option (CodecMeta syn) → Bool → Result (FieldInit syn)
  init_field field (some meta) true = ok (init_meta field.ident meta)
  init_field field none true = err misplaced_unknown
  init_field field unknown false = ok (init_decode field.ident field.ty)

  unfoldable pub decode_field : Option (CodecMeta syn) → Field syn → Result (FieldInit syn)
  unfolding init_field
  decode_field unknown field = is_unknown field >>= init_field field unknown

  unfoldable pub decode_fields :
      List String → Fields syn → Option (CodecMeta syn) → Result (Construct syn)
  unfolding decode_field
  decode_fields name (named_fields fields) unknown =
      collect (decode_field unknown) fields >>= λ inits. ok (construct_named name inits)
  decode_fields name (unnamed_fields fields) unknown =
      collect (decode_field unknown) fields >>= λ inits. ok (construct_unnamed name inits)
  decode_fields name unit_fields unknown = ok (construct_unit name)

  -- The constant of a variant; one with `unknown` has none.
  unfoldable pub tag_constant : Converter syn → ℕ × Variant syn → Result (List (TagConstant syn))
  tag_constant converter (index, variant) = do
    current_tag ← get_variant_tag variant
    ok (
        if is_unknown_meta current_tag
        then []
        else record { index = index; converter = converter; tag = current_tag } ∷ [])

  unfoldable pub tag_constants :
      Option (Converter syn) → List (Variant syn) → Result (List (TagConstant syn))
  unfolding tag_constant
  tag_constants none variants = ok []
  tag_constants (some converter) variants =
      collect (tag_constant converter) (enumerate 0 variants) >>= λ lists. ok (flatten lists)

  -- `converter.is_some() && !current_tag.is_unknown()`
  abbrev pub arm_pattern : Option (Converter syn) → ℕ → CodecMeta syn → Pattern syn
  arm_pattern (some converter) index (tag_meta e) = constant_pattern index
  arm_pattern (some converter) index unknown_meta = meta_pattern unknown_meta
  arm_pattern none index meta = meta_pattern meta

  unfoldable pub decode_variant :
      String → Option (Converter syn) → ℕ × Variant syn → Result (Pattern syn × Construct syn)
  unfolding decode_fields
  decode_variant name converter (index, variant) = do
    current_tag ← get_variant_tag variant
    construct ← decode_fields (name ∷ variant.ident ∷ []) variant.fields (opt_unknown current_tag)
    ok (arm_pattern converter index current_tag, construct)

  unfoldable pub decode_data : String → Data syn → Option (Converter syn) → Result (DecodeBody syn)
  unfolding decode_fields tag_constants decode_variant
  decode_data name (struct_of fields) converter =
      decode_fields (name ∷ []) fields none >>= λ c. ok (decode_struct c)
  decode_data name (enum_of variants) converter = do
    constants ← tag_constants converter variants
    arms ← collect (decode_variant name converter) (enumerate 0 variants)
    ok (decode_enum constants arms)
  decode_data name union_of converter = err not_for_unions

  unfoldable pub decode_derive : DeriveInput syn → Result (DecodeImpl syn)
  unfolding decode_data add_trait_bounds
  decode_derive input = do
    converter ← extract_converter input
    impl_decode ← decode_data input.ident input.body converter
    ok (record {
      generics = add_trait_bounds ("codec" ∷ "Decode" ∷ []) input.generics;
      name = input.ident;
      body = impl_decode;
    })
