-- ===== src/Derive/Encode.antt =====
-- The macro `Encode` of codec-derive/src/lib.rs, in the same way.
use dersp.Prelude.{ℕ, Bool, true, false, Option, none, some, List, [], ◌∷◌, if◌then◌else◌}
use dersp.Exec.{ok, err}
use Prim.Native.String.{String}
use dersp.Derive.Syntax.{
  Syn, Result, ◌>>=◌, collect, enumerate, Field, Fields, named_fields, unnamed_fields, unit_fields,
  Variant, Data, struct_of, enum_of, union_of, not_for_unions, GenericParam, DeriveInput,
}
use dersp.Derive.Attr.{
  CodecMeta, unknown_meta, tag_meta, Converter, is_unknown, get_variant_tag, extract_converter,
}
use dersp.Derive.Decode.{add_trait_bounds}

-- What is encoded: `&self.name`, `&self.index`, `name` or `_index`.
pub data Place : Type 0 where
  self_field : Option String → Place
  self_index : ℕ → Place
  bound_field : Option String → Place
  bound_index : ℕ → Place

-- A summand: `0`, or `::codec::Encode::encode(place, write_buffer)?`
pub data Summand : Type 0 where
  zero_summand : Summand
  encode_summand : Place → Summand

-- The pattern of a variant's fields: `{ names, .. }`, `( … )` with `_` for a field that is left out,
-- or nothing.
pub data FieldPattern : Type 0 where
  named_pattern : List (Option String) → FieldPattern
  unnamed_pattern : List (Option ℕ) → FieldPattern
  unit_pattern : FieldPattern

-- `{ ident, .. } => ident.clone()` and `( _0, _1 ) => _i.clone()`
pub data UnknownArm : Type 0 where
  clone_named : Option String → UnknownArm
  clone_unnamed : List ℕ → ℕ → UnknownArm

module _ (syn : Syn) where
  -- The right side of an arm of `let tag = match self { … };`. The panic's message names the variant.
  pub data TagArm : Type 0 where
    tag_of_field : UnknownArm → TagArm
    tag_panics : TagArm
    tag_expr : Option (Converter syn) → syn.Expr → TagArm

  -- The body of `encode`: `Ok(0 + …)`, or the tag's match and the match on the fields. Every arm
  -- begins with the variant's name.
  pub data EncodeBody : Type 0 where
    encode_struct : List Summand → EncodeBody
    encode_enum :
        List (String × TagArm) → List (String × (FieldPattern × List Summand)) → EncodeBody

  -- `impl<generics> ::codec::Encode for name { … }`
  pub record EncodeImpl : Type 0 where
    pub generics : List (GenericParam syn)
    pub name : String
    pub body : EncodeBody

-- `.unwrap_or(false)`
abbrev pub or_false : Result Bool → Bool
or_false (ok b) = b
or_false _ = false

abbrev pub clone_the_one : List ℕ → Option ℕ → Option UnknownArm
clone_the_one all none = none
clone_the_one all (some the_one) = some (clone_unnamed all the_one)

module _ {syn : Syn} where
  abbrev pub is_skipped : Field syn → Bool
  is_skipped field = or_false (is_unknown field)

  unfoldable pub first_named : List (Field syn) → Option UnknownArm
  first_named [] = none
  first_named (field ∷ rest) =
      let more = first_named rest in
      if is_skipped field then some (clone_named field.ident) else more

  unfoldable pub first_unnamed : List (ℕ × Field syn) → Option ℕ
  first_unnamed [] = none
  first_unnamed ((index, field) ∷ rest) =
      let more = first_unnamed rest in if is_skipped field then some index else more

  abbrev pub indices : List (ℕ × Field syn) → List ℕ
  indices [] = []
  indices ((index, field) ∷ rest) = index ∷ indices rest

  unfoldable pub extract_unknown : Fields syn → Option UnknownArm
  unfolding first_named first_unnamed
  extract_unknown (named_fields fields) = first_named fields
  extract_unknown (unnamed_fields fields) =
      clone_the_one (indices (enumerate 0 fields)) (first_unnamed (enumerate 0 fields))
  extract_unknown unit_fields = none

  unfoldable pub kept_names : List (Field syn) → List (Option String)
  kept_names [] = []
  kept_names (field ∷ rest) =
      let more = kept_names rest in if is_skipped field then more else field.ident ∷ more

  unfoldable pub kept_indices : List (ℕ × Field syn) → List (Option ℕ)
  kept_indices [] = []
  kept_indices ((index, field) ∷ rest) =
      (if is_skipped field then none else some index) ∷ kept_indices rest

  unfoldable pub field_list : Fields syn → FieldPattern
  unfolding kept_names kept_indices
  field_list (named_fields fields) = named_pattern (kept_names fields)
  field_list (unnamed_fields fields) = unnamed_pattern (kept_indices (enumerate 0 fields))
  field_list unit_fields = unit_pattern

  unfoldable pub named_summands : Bool → List (Field syn) → List Summand
  named_summands with_self [] = []
  named_summands with_self (field ∷ rest) =
      (if is_skipped field
        then zero_summand
        else encode_summand (if with_self then self_field field.ident else bound_field field.ident))
      ∷ named_summands with_self rest

  unfoldable pub unnamed_summands : Bool → List (ℕ × Field syn) → List Summand
  unnamed_summands with_self [] = []
  unnamed_summands with_self ((index, field) ∷ rest) =
      (if is_skipped field
        then zero_summand
        else encode_summand (if with_self then self_index index else bound_index index))
      ∷ unnamed_summands with_self rest

  -- The summands after the leading `0`.
  unfoldable pub encode_fields : Bool → Fields syn → List Summand
  unfolding named_summands unnamed_summands
  encode_fields with_self (named_fields fields) = named_summands with_self fields
  encode_fields with_self (unnamed_fields fields) = unnamed_summands with_self (enumerate 0 fields)
  encode_fields with_self unit_fields = []

  abbrev pub arm_of_unknown : Option UnknownArm → TagArm syn
  arm_of_unknown (some arm) = tag_of_field arm
  arm_of_unknown none = tag_panics

  unfoldable pub tag_arm : Option (Converter syn) → Fields syn → CodecMeta syn → TagArm syn
  unfolding extract_unknown
  tag_arm converter fields unknown_meta = arm_of_unknown (extract_unknown fields)
  tag_arm converter fields (tag_meta e) = tag_expr converter e

  unfoldable pub tag_variant : Option (Converter syn) → Variant syn → Result (String × TagArm syn)
  unfolding tag_arm
  tag_variant converter variant =
      get_variant_tag variant >>= λ meta. ok (variant.ident, tag_arm converter variant.fields meta)

  unfoldable pub impl_variants : List (Variant syn) → List (String × (FieldPattern × List Summand))
  unfolding field_list encode_fields
  impl_variants [] = []
  impl_variants (variant ∷ rest) =
      (variant.ident, (field_list variant.fields, encode_fields false variant.fields))
      ∷ impl_variants rest

  unfoldable pub encode_data : Data syn → Option (Converter syn) → Result (EncodeBody syn)
  unfolding encode_fields tag_variant impl_variants
  encode_data (struct_of fields) converter = ok (encode_struct (encode_fields true fields))
  encode_data (enum_of variants) converter = collect (tag_variant converter) variants >>= λ arms.
      ok (encode_enum arms (impl_variants variants))
  encode_data union_of converter = err not_for_unions

  unfoldable pub encode_derive : DeriveInput syn → Result (EncodeImpl syn)
  unfolding encode_data add_trait_bounds
  encode_derive input = do
    converter ← extract_converter input
    impl_encode ← encode_data input.body converter
    ok (record {
      generics = add_trait_bounds ("codec" ∷ "Encode" ∷ []) input.generics;
      name = input.ident;
      body = impl_encode;
    })
