-- ===== src/Derive/Attr.antt =====
-- codec-derive/src/attr.rs: the attributes `tag` and `unknown`.
use dersp.Prelude.{Bool, true, false, ◌||◌, Option, none, some, List, [], ◌∷◌, if◌then◌else◌}
use dersp.Exec.{ok, err}
use Prim.Native.String.{String}
use text.Mathlib.Text.{◌==◌}
use dersp.Derive.Syntax.{
  Syn, Result, ◌>>=◌, Attribute, Field, Variant, DeriveInput, missing_tag, invalid_tag,
  repeated_attribute, repeated_converter, parse_failed,
}

-- A path of one segment that is `tag` or `unknown`.
unfoldable pub is_codec_path : List String → Bool
is_codec_path [] = false
is_codec_path (segment ∷ []) = (segment == "tag") || (segment == "unknown")
is_codec_path (segment ∷ next ∷ rest) = false

unfoldable pub is_tag_path : List String → Bool
is_tag_path [] = false
is_tag_path (segment ∷ []) = segment == "tag"
is_tag_path (segment ∷ next ∷ rest) = false

-- The identifier of an attribute whose path has one segment.
abbrev pub first_segment : List String → String
first_segment [] = ""
first_segment (segment ∷ rest) = segment

-- What a parser makes of all the tokens behind the attribute.
abbrev pub parsed : {A : Type 0} → Option A → Result A
parsed (some a) = ok a
parsed none = err parse_failed

module _ (syn : Syn) where
  pub data CodecMeta : Type 0 where
    unknown_meta : CodecMeta
    tag_meta : syn.Expr → CodecMeta

  -- `struct Converter(pub ExprPath)`
  pub record Converter : Type 0 where
    pub path : List String

module _ {syn : Syn} where
  -- `CodecMeta::parse_with_ident`, run by `Parser::parse2`, which refuses tokens that are left over.
  unfoldable pub parse_with_ident : String → syn.Tokens → Result (CodecMeta syn)
  parse_with_ident ident tokens =
      if ident == "unknown"
      then (if syn.has_tokens tokens then err parse_failed else ok unknown_meta)
      else (parsed (syn.parse_expr tokens) >>= λ e. ok (tag_meta e))

  -- The loop over the attributes: the only one of its kind, or an error at the second.
  unfoldable pub only_attribute :
      (List String → Bool)
      → Result (Option (Attribute syn))
      → Option (Attribute syn)
      → List (Attribute syn)
      → Result (Option (Attribute syn))
  only_attribute is_wanted repeated found [] = ok found
  only_attribute is_wanted repeated none (attr ∷ rest) =
      only_attribute is_wanted repeated (if is_wanted attr.path then some attr else none) rest
  only_attribute is_wanted repeated (some found) (attr ∷ rest) =
      let more = only_attribute is_wanted repeated (some found) rest in
      if is_wanted attr.path then repeated else more

  unfoldable pub parse_codec_attr : Option (Attribute syn) → Result (Option (CodecMeta syn))
  unfolding parse_with_ident
  parse_codec_attr none = ok none
  parse_codec_attr (some attr) =
      parse_with_ident (first_segment attr.path) attr.tokens >>= λ meta. ok (some meta)

  unfoldable pub extract_codec_meta : List (Attribute syn) → Result (Option (CodecMeta syn))
  unfolding is_codec_path only_attribute parse_codec_attr
  extract_codec_meta attributes = do
    codec_attr ← only_attribute is_codec_path (err repeated_attribute) none attributes
    parse_codec_attr codec_attr

  abbrev pub or_missing : Option (CodecMeta syn) → Result (CodecMeta syn)
  or_missing (some meta) = ok meta
  or_missing none = err missing_tag

  unfoldable pub get_variant_tag : Variant syn → Result (CodecMeta syn)
  unfolding extract_codec_meta
  get_variant_tag variant = extract_codec_meta variant.attrs >>= or_missing

  abbrev pub as_unknown : Option (CodecMeta syn) → Result Bool
  as_unknown (some unknown_meta) = ok true
  as_unknown (some (tag_meta e)) = err invalid_tag
  as_unknown none = ok false

  unfoldable pub is_unknown : Field syn → Result Bool
  unfolding extract_codec_meta
  is_unknown field = extract_codec_meta field.attrs >>= as_unknown

  abbrev pub parse_converter : Option (Attribute syn) → Result (Option (Converter syn))
  parse_converter none = ok none
  parse_converter (some attr) =
      parsed (syn.parse_path attr.tokens) >>= λ path. ok (some (record { path = path }))

  unfoldable pub extract_converter : DeriveInput syn → Result (Option (Converter syn))
  unfolding is_tag_path only_attribute
  extract_converter input = do
    converter ← only_attribute is_tag_path (err repeated_converter) none input.attrs
    parse_converter converter

  -- `CodecMeta::is_unknown` and `CodecMeta::opt_unknown`
  abbrev pub is_unknown_meta : CodecMeta syn → Bool
  is_unknown_meta unknown_meta = true
  is_unknown_meta (tag_meta e) = false

  abbrev pub opt_unknown : CodecMeta syn → Option (CodecMeta syn)
  opt_unknown unknown_meta = some unknown_meta
  opt_unknown (tag_meta e) = none
