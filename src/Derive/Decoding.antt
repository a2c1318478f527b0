-- ===== src/Derive/Decoding.antt =====
-- What the code that the macro Decode of codec-derive/src/lib.rs quotes does, once it is compiled. Code
-- that the compiler would refuse is `stuck`.
use dersp.Prelude.{
  ℕ, Bool, true, false, Option, none, some, List, [], ◌∷◌, if◌then◌else◌, ◌||◌, ◌==◌,
}
use dersp.Exec.{stuck, pure, lift, ◌>>=◌}
use Prim.Native.String.{String}
use dersp.Codec.Read.{Decode}
use dersp.Codec.Encode.{Encoding}
use dersp.Derive.Syntax.{Syn}
use dersp.Derive.Attr.{CodecMeta, unknown_meta, tag_meta, Converter}
use dersp.Derive.Decode.{
  FieldInit, init_meta, init_decode, Construct, construct_named, construct_unnamed, construct_unit,
  TagConstant, Pattern, constant_pattern, meta_pattern, DecodeBody, decode_struct, decode_enum,
}

-- What the program gives the quoted code: values, the codecs of its types, the type that is inferred
-- for a tag, constant expressions, the test of a constant pattern, and whether the compiler sees that
-- constant patterns cover the tag's type.
pub record Program (syn : Syn) : Type 1 where
  pub Value : Type 0
  pub decode : syn.Ty → Decode Value
  pub encode : Value → Encoding
  pub tag_type : syn.Ty
  pub eval : syn.Expr → Value
  pub const_from : List String → syn.Expr → Value
  pub fits_pattern : Value → Value → Bool
  pub covers : List Value → Bool

module _ {syn : Syn} (program : Program syn) where
  -- A field's value, with its name if it has one.
  abbrev pub Slot : Type 0
  Slot = Option String × program.Value

  -- A value of a struct or an enum: the path of its constructor, and its fields in their order.
  pub record Object : Type 0 where
    pub path : List String
    pub slots : List Slot

  abbrev pub meta_value : Option (Converter syn) → CodecMeta syn → Option program.Value
  meta_value converter unknown_meta = none
  meta_value none (tag_meta e) = some (program.eval e)
  meta_value (some converter) (tag_meta e) = some (program.const_from converter.path e)

  -- `tag` is what `_unknown` is bound to.
  unfoldable pub run_init : Option program.Value → FieldInit syn → Decode Slot
  run_init tag (init_decode name ty) = do v ← program.decode ty; pure (name, v)
  run_init (some tag) (init_meta name unknown_meta) = pure (name, tag)
  run_init none (init_meta name unknown_meta) = lift stuck
  run_init tag (init_meta name (tag_meta e)) = pure (name, program.eval e)

  unfoldable pub run_inits : Option program.Value → List (FieldInit syn) → Decode (List Slot)
  unfolding run_init
  run_inits tag [] = pure []
  run_inits tag (init ∷ rest) = do
    slot ← run_init tag init
    slots ← run_inits tag rest
    pure (slot ∷ slots)

  unfoldable pub run_construct : Option program.Value → Construct syn → Decode Object
  unfolding run_inits
  run_construct tag (construct_named path inits) = do
    slots ← run_inits tag inits
    pure (record { path = path; slots = slots })
  run_construct tag (construct_unnamed path inits) = do
    slots ← run_inits tag inits
    pure (record { path = path; slots = slots })
  run_construct tag (construct_unit path) = pure (record { path = path; slots = [] })

  unfoldable pub constant_value : ℕ → List (TagConstant syn) → Option program.Value
  constant_value index [] = none
  constant_value index (constant ∷ rest) =
      let more = constant_value index rest in
      if constant.index == index then meta_value (some constant.converter) constant.tag else more

  abbrev pub fits_constant : Option program.Value → program.Value → Bool
  fits_constant (some v) tag = program.fits_pattern v tag
  fits_constant none tag = false

  unfoldable pub fits : List (TagConstant syn) → program.Value → Pattern syn → Bool
  unfolding constant_value
  fits constants tag (constant_pattern index) = fits_constant (constant_value index constants) tag
  fits constants tag (meta_pattern unknown_meta) = true
  fits constants tag (meta_pattern (tag_meta e)) = program.fits_pattern (program.eval e) tag

  -- `match tag { … }`: the first arm whose pattern fits.
  unfoldable pub run_match :
      List (TagConstant syn) → List (Pattern syn × Construct syn) → program.Value → Decode Object
  unfolding fits run_construct
  run_match constants [] tag = lift stuck
  run_match constants ((pattern_of_arm, construct) ∷ rest) tag =
      let more = run_match constants rest tag in
      if fits constants tag pattern_of_arm then run_construct (some tag) construct else more

  -- `_unknown`, before the arrow of an arm, fits every tag.
  abbrev pub catches_all : List (Pattern syn × Construct syn) → Bool
  catches_all [] = false
  catches_all ((meta_pattern unknown_meta, construct) ∷ rest) = true
  catches_all ((meta_pattern (tag_meta e), construct) ∷ rest) = catches_all rest
  catches_all ((constant_pattern index, construct) ∷ rest) = catches_all rest

  abbrev pub with_value : Option program.Value → List program.Value → List program.Value
  with_value (some v) rest = v ∷ rest
  with_value none rest = rest

  abbrev pub pattern_values :
      List (TagConstant syn) → List (Pattern syn × Construct syn) → List program.Value
  pattern_values constants [] = []
  pattern_values constants ((meta_pattern unknown_meta, construct) ∷ rest) =
      pattern_values constants rest
  pattern_values constants ((meta_pattern (tag_meta e), construct) ∷ rest) =
      program.eval e ∷ pattern_values constants rest
  pattern_values constants ((constant_pattern index, construct) ∷ rest) =
      with_value (constant_value index constants) (pattern_values constants rest)

  -- The compiler refuses a match that is not exhaustive.
  unfoldable pub is_exhaustive : List (TagConstant syn) → List (Pattern syn × Construct syn) → Bool
  unfolding constant_value
  is_exhaustive constants arms = catches_all arms || program.covers (pattern_values constants arms)

  unfoldable pub run_decode : DecodeBody syn → Decode Object
  unfolding run_construct run_match is_exhaustive
  run_decode (decode_struct construct) = run_construct none construct
  run_decode (decode_enum constants arms) =
      if is_exhaustive constants arms
      then program.decode program.tag_type >>= run_match constants arms
      else lift stuck
