-- ===== src/Derive/Meaning.antt =====
-- What the code that the macros of codec-derive/src/lib.rs quote does, once it is compiled (Decoding
-- for the macro Decode). Code that the compiler would refuse, such as a name that is not bound, is
-- `stuck`.
use dersp.Prelude.{
  ℕ, zero, suc, Bool, true, false, Option, none, some, List, [], ◌∷◌, if◌then◌else◌, ◌||◌, ◌==◌,
  not, ◌&&◌,
}
use dersp.Exec.{Outcome, ok, panic, stuck, lift, ◌>>=◌}
use Prim.Native.String.{String}
use text.Mathlib.Text.{◌==◌ as str_eq}
use dersp.Codec.Read.{Decode}
use dersp.Codec.Encode.{Encoding, ◌+?◌, encode_unit}
use dersp.Derive.Syntax.{Syn, Result, DeriveInput, collect}
use dersp.Derive.Attr.{extract_converter, is_unknown, get_variant_tag, tag_meta}
use dersp.Derive.Decode.{DecodeImpl, decode_derive}
use dersp.Derive.Encode.{
  Place, self_field, self_index, bound_field, bound_index, Summand, zero_summand, encode_summand,
  FieldPattern, named_pattern, unnamed_pattern, unit_pattern, clone_named, clone_unnamed, TagArm,
  tag_of_field, tag_panics, tag_expr, EncodeBody, encode_struct, encode_enum, EncodeImpl,
  encode_derive,
}
pub use dersp.Derive.Decoding.{Program, Object, Slot, meta_value}
unfoldable pub use dersp.Derive.Decoding.{
  run_init, run_inits, run_construct, fits, run_match, is_exhaustive, run_decode,
}

module _ {syn : Syn} (program : Program syn) where
  abbrev pub same_name : Option String → Option String → Bool
  same_name (some a) (some b) = str_eq a b
  same_name _ _ = false

  unfoldable pub slot_named : Option String → List (Slot program) → Option program.Value
  slot_named name [] = none
  slot_named name ((other, v) ∷ rest) =
      let more = slot_named name rest in if same_name name other then some v else more

  unfoldable pub slot_at : ℕ → List (Slot program) → Option program.Value
  slot_at index [] = none
  slot_at zero ((name, v) ∷ rest) = some v
  slot_at (suc index) (slot ∷ rest) = slot_at index rest

  abbrev pub binds_name : Option String → List (Option String) → Bool
  binds_name name [] = false
  binds_name name (other ∷ rest) = same_name name other || binds_name name rest

  abbrev pub binds_index : ℕ → List (Option ℕ) → Bool
  binds_index index [] = false
  binds_index index (none ∷ rest) = binds_index index rest
  binds_index index (some other ∷ rest) = (index == other) || binds_index index rest

  -- The compiler refuses `{ , .. }`, which is what the macro quotes where no named field is kept, and
  -- a field `write_buffer`, whose binding hides the parameter.
  abbrev pub compiles_pattern : FieldPattern → Bool
  compiles_pattern (named_pattern []) = false
  compiles_pattern (named_pattern (name ∷ names)) =
      not (binds_name (some "write_buffer") (name ∷ names))
  compiles_pattern (unnamed_pattern indices) = true
  compiles_pattern unit_pattern = true

  unfoldable pub compiles_arms : List (String × (FieldPattern × List Summand)) → Bool
  compiles_arms [] = true
  compiles_arms ((name, (pattern_of_arm, summands)) ∷ rest) =
      compiles_pattern pattern_of_arm && compiles_arms rest

  -- A place under `self`, or under the pattern of the variant's fields.
  unfoldable pub place_value : List (Slot program) → FieldPattern → Place → Option program.Value
  unfolding slot_named slot_at
  place_value slots pattern_of_arm (self_field name) = slot_named name slots
  place_value slots pattern_of_arm (self_index index) = slot_at index slots
  place_value slots (named_pattern names) (bound_field name) =
      if binds_name name names then slot_named name slots else none
  place_value slots (unnamed_pattern indices) (bound_index index) =
      if binds_index index indices then slot_at index slots else none
  place_value slots pattern_of_arm place = none

  abbrev pub encode_value : Option program.Value → Encoding
  encode_value (some v) = program.encode v
  encode_value none = λ w. lift stuck

  unfoldable pub run_summand : List (Slot program) → FieldPattern → Summand → Encoding
  unfolding place_value
  run_summand slots pattern_of_arm zero_summand = encode_unit
  run_summand slots pattern_of_arm (encode_summand place) =
      encode_value (place_value slots pattern_of_arm place)

  -- `sum + a + b + …`
  unfoldable pub run_sum : List (Slot program) → FieldPattern → Encoding → List Summand → Encoding
  unfolding run_summand
  run_sum slots pattern_of_arm sum [] = sum
  run_sum slots pattern_of_arm sum (summand ∷ rest) =
      run_sum slots pattern_of_arm (sum +? run_summand slots pattern_of_arm summand) rest

  unfoldable pub find_arm : {A : Type 0} → String → List (String × A) → Option A
  find_arm variant [] = none
  find_arm variant ((name, arm) ∷ rest) =
      let more = find_arm variant rest in if str_eq name variant then some arm else more

  abbrev pub bound : {A : Type 0} → Option A → {E : Type 0} → Outcome E A
  bound (some a) = ok a
  bound none = stuck

  -- `let tag = match self { … };`
  unfoldable pub run_tag_arm :
      List (Slot program) → Option (TagArm syn) → {E : Type 0} → Outcome E program.Value
  unfolding slot_named slot_at
  run_tag_arm slots (some (tag_of_field (clone_named name))) = bound (slot_named name slots)
  run_tag_arm slots (some (tag_of_field (clone_unnamed all the_one))) =
      bound (slot_at the_one slots)
  run_tag_arm slots (some tag_panics) = panic
  run_tag_arm slots (some (tag_expr converter e)) =
      bound (meta_value program converter (tag_meta e))
  run_tag_arm slots none = stuck

  -- The match on the fields.
  unfoldable pub run_fields_arm :
      List (Slot program) → Option (FieldPattern × List Summand) → Encoding
  unfolding run_sum
  run_fields_arm slots (some (pattern_of_arm, summands)) =
      run_sum slots pattern_of_arm encode_unit summands
  run_fields_arm slots none = λ w. lift stuck

  -- The variant that a path names.
  abbrev pub variant_of : List String → String
  variant_of (name ∷ variant ∷ rest) = variant
  variant_of _ = ""

  -- The tag, and then the match on the fields.
  abbrev pub run_arms :
      List (Slot program) → Option (TagArm syn) → Option (FieldPattern × List Summand) → Encoding
  run_arms slots tag_arm_found fields_arm = λ w. do
    tag ← lift (run_tag_arm slots tag_arm_found)
    (program.encode tag +? run_fields_arm slots fields_arm) w

  unfoldable pub run_encode : EncodeBody syn → Object program → Encoding
  unfolding run_sum run_tag_arm run_fields_arm find_arm compiles_arms
  run_encode (encode_struct summands) object =
      run_sum object.slots unit_pattern encode_unit summands
  run_encode (encode_enum tag_arms arms) object =
      if compiles_arms arms
      then run_arms object.slots (find_arm (variant_of object.path) tag_arms)
          (find_arm (variant_of object.path) arms)
      else (λ w. lift stuck)

  -- The code of a macro that reported an error is refused.
  abbrev pub run_decode_impl : Result (DecodeImpl syn) → Decode (Object program)
  run_decode_impl (ok code) = run_decode program code.body
  run_decode_impl _ = lift stuck

  abbrev pub run_encode_impl : Result (EncodeImpl syn) → Object program → Encoding
  run_encode_impl (ok code) object = run_encode code.body object
  run_encode_impl _ object = λ w. lift stuck

  -- The derived codec of a type.
  unfoldable pub derived_decode : DeriveInput syn → Decode (Object program)
  unfolding decode_derive run_decode extract_converter is_unknown get_variant_tag collect
  derived_decode input = run_decode_impl (decode_derive input)

  unfoldable pub derived_encode : DeriveInput syn → Object program → Encoding
  unfolding encode_derive run_encode extract_converter is_unknown get_variant_tag collect
  derived_encode input object = run_encode_impl (encode_derive input) object
