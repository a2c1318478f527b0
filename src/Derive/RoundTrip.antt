-- ===== src/Derive/RoundTrip.antt =====
-- Structs come back: the code that both macros of codec-derive/src/lib.rs write for a struct.
use dersp.Prelude.{◌≡◌, refl, Option, none, List, [], ◌∷◌, All}
use dersp.Exec.{ok}
use Prim.Native.String.{String}
use dersp.Codec.Laws.Emits.{Emits}
use dersp.Codec.Laws.Reads.{Reads}
use dersp.Derive.Syntax.{
  Syn, Fields, named_fields, unnamed_fields, unit_fields, struct_of, DeriveInput,
}
use dersp.Derive.Attr.{Converter, extract_converter}
use dersp.Derive.Decode.{
  Construct, construct_named, construct_unnamed, construct_unit, decode_data, decode_fields,
}
use dersp.Derive.Encode.{encode_data}
use dersp.Derive.Meaning.{
  Program, Object, run_construct, run_encode, derived_decode, derived_encode,
}
use dersp.Derive.Places.{IsLaidOut, Emits-self}
use dersp.Derive.Parts.{
  Part, IsCoded, slots_of, bytes_of, inits_of, collect-decode_field, Reads-run_inits,
}

module _ {syn : Syn} (program : Program syn) where
  -- The value of the struct that the parts make.
  abbrev pub object_of : String → List (Part program) → Object program
  object_of name ps = record { path = name ∷ []; slots = slots_of program ps }

  -- What the macro Decode makes of fields without attributes, in a struct or in a variant, takes the
  -- parts' bytes and makes the constructor's value.
  pub Reads-fields :
      (path : List String) (tag : Option program.Value) (fields : Fields syn)
      (ps : List (Part program))
      → IsLaidOut program fields ps
      → All (IsCoded program) ps
      → (construct : Construct syn) × (decode_fields path fields none ≡ ok construct)
        × Reads
            (run_construct program tag construct)
            (record { path = path; slots = slots_of program ps })
            (bytes_of program ps)
  unfolding run_construct decode_fields
  Reads-fields path tag (named_fields fields) ps (same, distinct) h = (
    construct_named path (inits_of program ps),
    rw (same, collect-decode_field program ps h) refl,
    λ rest. rw (Reads-run_inits program tag ps h rest) refl,
  )
  Reads-fields path tag (unnamed_fields fields) ps same h = (
    construct_unnamed path (inits_of program ps),
    rw (same, collect-decode_field program ps h) refl,
    λ rest. rw (Reads-run_inits program tag ps h rest) refl,
  )
  Reads-fields path tag unit_fields ps same h = (construct_unit path, refl, λ rest. rw same refl)

  -- For every struct of any fields whose attributes parse, with none on its fields, and with
  -- different names if they have names: if the codec of each field's type takes the field's value
  -- to some bytes and back, whatever follows them, then the encoder that the macro Encode writes
  -- emits the bytes of the fields in their order, in every lawful buffer, and the decoder that
  -- the macro Decode writes takes them off whatever begins with them and returns the value.
  pub struct_round_trip :
      (input : DeriveInput syn) (converter : Option (Converter syn)) (fields : Fields syn)
      (ps : List (Part program))
      → extract_converter input ≡ ok converter
      → input.body ≡ struct_of fields
      → IsLaidOut program fields ps
      → All (IsCoded program) ps
      → Emits (derived_encode program input (object_of input.ident ps)) (bytes_of program ps)
        × Reads (derived_decode program input) (object_of input.ident ps) (bytes_of program ps)
  unfolding derived_encode derived_decode encode_data decode_data run_encode
  struct_round_trip input converter fields ps parsed body laid_out h =
      let (construct, accepted, reads) =
        Reads-fields (input.ident ∷ []) none fields ps laid_out h in
      (
        rw (parsed, body) (Emits-self program fields ps laid_out h),
        rw (parsed, body, accepted) reads,
      )
