-- ===== src/Derive/Parts.antt =====
-- The fields of a struct, or of a variant, with values: what the code that the macros of
-- codec-derive/src/lib.rs write for them does.
use dersp.Prelude.{
  ℕ, suc, ◌≡◌, refl, sym, subst, true, false, Option, none, some, List, [], ◌∷◌, ◌++◌, All,
  append-nil, append_assoc, Bool, if◌then◌else◌,
}
use dersp.Exec.{ok}
use Prim.Native.String.{String}
use dersp.Codec.Encode.{Encoding, ◌+?◌}
use dersp.Codec.Laws.Emits.{Emits, Emits-+?}
use dersp.Codec.Laws.Reads.{Reads}
use dersp.Derive.Syntax.{Syn, collect, enumerate, Field}
use dersp.Derive.Attr.{is_unknown}
use dersp.Derive.Decode.{FieldInit, init_decode, decode_field, init_field}
use dersp.Derive.Encode.{
  named_summands, unnamed_summands, Place, self_field, self_index, bound_field, bound_index,
  FieldPattern,
}
use dersp.Derive.Meaning.{
  Program, Slot, run_inits, run_init, run_sum, run_summand, place_value, slot_at, slot_named,
  same_name,
}

module _ {syn : Syn} (program : Program syn) where
  -- A field of a struct with a value of it and the value's bytes.
  pub record Part : Type 0 where
    pub field : Field syn
    pub value : program.Value
    pub bytes : List ℕ

  -- The field has no attribute of the macros, and the codec of its type takes the value to the bytes
  -- and back.
  pub record IsCoded (p : Part) : Type 1 where
    pub plain : is_unknown p.field ≡ ok false
    pub emits : Emits (program.encode p.value) p.bytes
    pub reads : Reads (program.decode p.field.ty) p.value p.bytes

  abbrev pub fields_of : List Part → List (Field syn)
  fields_of [] = []
  fields_of (p ∷ ps) = p.field ∷ fields_of ps

  abbrev pub slots_of : List Part → List (Slot program)
  slots_of [] = []
  slots_of (p ∷ ps) = (p.field.ident, p.value) ∷ slots_of ps

  abbrev pub bytes_of : List Part → List ℕ
  bytes_of [] = []
  bytes_of (p ∷ ps) = p.bytes ++ bytes_of ps

  abbrev pub inits_of : List Part → List (FieldInit syn)
  inits_of [] = []
  inits_of (p ∷ ps) = init_decode p.field.ident p.field.ty ∷ inits_of ps

  pub collect-decode_field :
      (ps : List Part)
      → All IsCoded ps
      → collect (decode_field none) (fields_of ps) ≡ ok (inits_of ps)
  unfolding collect decode_field init_field
  collect-decode_field [] h = refl
  collect-decode_field (p ∷ ps) (now, later) = rw (now.plain, collect-decode_field ps later) refl

  -- `tag` is there in the arm of an enum's variant.
  pub Reads-run_inits :
      (tag : Option program.Value) (ps : List Part)
      → All IsCoded ps
      → Reads (run_inits program tag (inits_of ps)) (slots_of ps) (bytes_of ps)
  unfolding run_inits run_init
  Reads-run_inits tag [] h rest = refl
  Reads-run_inits tag (p ∷ ps) (now, later) rest =
      rw
        (
          append_assoc p.bytes (bytes_of ps) rest,
          now.reads (bytes_of ps ++ rest),
          Reads-run_inits tag ps later rest,
        )
        refl

  -- The slots hold the parts' values from an index on, or under the parts' names.
  abbrev pub FoundAt : List (Slot program) → ℕ → List Part → Type 0
  FoundAt slots n [] = Unit {0}
  FoundAt slots n (p ∷ ps) = (slot_at program n slots ≡ some p.value) × FoundAt slots (suc n) ps

  FoundAt-cons :
      (slot : Slot program) (slots : List (Slot program)) (n : ℕ) (ps : List Part)
      → FoundAt slots n ps
      → FoundAt (slot ∷ slots) (suc n) ps
  unfolding slot_at
  FoundAt-cons slot slots n [] h = tt
  FoundAt-cons slot slots n (p ∷ ps) (now, later) = (now, FoundAt-cons slot slots (suc n) ps later)

  pub slots_of-FoundAt : (ps : List Part) → FoundAt (slots_of ps) 0 ps
  unfolding slot_at
  slots_of-FoundAt [] = tt
  slots_of-FoundAt (p ∷ ps) =
      (refl, FoundAt-cons (p.field.ident, p.value) (slots_of ps) 0 ps (slots_of-FoundAt ps))

  abbrev pub IsNamed : List (Slot program) → Part → Type 0
  IsNamed slots p = slot_named program p.field.ident slots ≡ some p.value

  -- The fields have names, which differ.
  abbrev pub IsDistinct : List Part → Type 0
  IsDistinct [] = Unit {0}
  IsDistinct (p ∷ ps) =
      (same_name program p.field.ident p.field.ident ≡ true)
      × All (λ q. same_name program q.field.ident p.field.ident ≡ false) ps
      × IsDistinct ps

  IsNamed-cons :
      (name : Option String) (v : program.Value) (slots : List (Slot program)) (ps : List Part)
      → All (λ q. same_name program q.field.ident name ≡ false) ps
      → All (IsNamed slots) ps
      → All (IsNamed ((name, v) ∷ slots)) ps
  unfolding slot_named
  IsNamed-cons name v slots [] other h = tt
  IsNamed-cons name v slots (p ∷ ps) (differs, others) (now, later) =
      (rw differs now, IsNamed-cons name v slots ps others later)

  pub slots_of-All : (ps : List Part) → IsDistinct ps → All (IsNamed (slots_of ps)) ps
  unfolding slot_named
  slots_of-All [] h = tt
  slots_of-All (p ∷ ps) (same, others, distinct) = (
    rw same refl,
    IsNamed-cons p.field.ident p.value (slots_of ps) ps others (slots_of-All ps distinct),
  )

  -- Where the summands of unnamed fields, from an index on, or of named ones find the parts' values.
  abbrev pub unnamed_place : Bool → ℕ → Place
  unnamed_place with_self n = if with_self then self_index n else bound_index n

  abbrev pub named_place : Bool → Option String → Place
  named_place with_self name = if with_self then self_field name else bound_field name

  module _ (slots : List (Slot program)) (pattern_of_arm : FieldPattern) (with_self : Bool) where
    abbrev pub PlacedAt : ℕ → List Part → Type 0
    PlacedAt n [] = Unit {0}
    PlacedAt n (p ∷ ps) =
        (place_value program slots pattern_of_arm (unnamed_place with_self n) ≡ some p.value)
        × PlacedAt (suc n) ps

    abbrev pub IsPlaced : Part → Type 0
    IsPlaced p =
        place_value program slots pattern_of_arm (named_place with_self p.field.ident)
        ≡ some p.value

    pub Emits-unnamed :
        (ps : List Part) (n : ℕ) (sum : Encoding) (xs : List ℕ)
        → All IsCoded ps
        → PlacedAt n ps
        → Emits sum xs
        → Emits
            (run_sum program slots pattern_of_arm sum
              (unnamed_summands with_self (enumerate n (fields_of ps))))
            (xs ++ bytes_of ps)
    unfolding run_sum run_summand unnamed_summands
    Emits-unnamed [] n sum xs h found e = subst (Emits sum) (sym (append-nil xs)) e
    Emits-unnamed (p ∷ ps) n sum xs (now, later) (here, there) e =
        rw (now.plain, here, sym (append_assoc xs p.bytes (bytes_of ps)))
          (Emits-unnamed ps (suc n) (sum +? program.encode p.value) (xs ++ p.bytes) later there
            (Emits-+? e now.emits))

    pub Emits-named :
        (ps : List Part) (sum : Encoding) (xs : List ℕ)
        → All IsCoded ps
        → All IsPlaced ps
        → Emits sum xs
        → Emits
            (run_sum program slots pattern_of_arm sum (named_summands with_self (fields_of ps)))
            (xs ++ bytes_of ps)
    unfolding run_sum run_summand named_summands
    Emits-named [] sum xs h found e = subst (Emits sum) (sym (append-nil xs)) e
    Emits-named (p ∷ ps) sum xs (now, later) (here, there) e =
        rw (now.plain, here, sym (append_assoc xs p.bytes (bytes_of ps)))
          (Emits-named ps (sum +? program.encode p.value) (xs ++ p.bytes) later there
            (Emits-+? e now.emits))
