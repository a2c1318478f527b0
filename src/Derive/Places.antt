-- ===== src/Derive/Places.antt =====
-- Where the code that the macro Encode of codec-derive/src/lib.rs writes finds a field: under `self`,
-- or under the pattern of a variant's fields.
use dersp.Prelude.{
  ℕ, suc, ◌≡◌, refl, sym, subst, true, false, Option, some, List, [], ◌∷◌, All, All-map, arith,
}
use Prim.Native.String.{String}
use dersp.Codec.Encode.{encode_unit}
use dersp.Codec.Laws.Emits.{Emits, Emits-unit}
use dersp.Derive.Syntax.{Syn, enumerate, Fields, named_fields, unnamed_fields, unit_fields}
use dersp.Derive.Encode.{
  named_pattern, unnamed_pattern, unit_pattern, kept_names, kept_indices, field_list, encode_fields,
}
use dersp.Derive.Meaning.{Program, Slot, run_sum, place_value, binds_name, binds_index}
use dersp.Derive.Parts.{
  Part, IsCoded, fields_of, slots_of, bytes_of, FoundAt, IsNamed, IsDistinct, PlacedAt, IsPlaced,
  slots_of-FoundAt, slots_of-All, Emits-unnamed, Emits-named,
}

module _ {syn : Syn} (program : Program syn) where
  -- The parts are fields, which have different names if they have names.
  abbrev pub IsLaidOut : Fields syn → List (Part program) → Type 0
  IsLaidOut (named_fields fields) ps = (fields ≡ fields_of program ps) × IsDistinct program ps
  IsLaidOut (unnamed_fields fields) ps = fields ≡ fields_of program ps
  IsLaidOut unit_fields ps = ps ≡ []

  module _ (slots : List (Slot program)) where
    PlacedAt-self :
        (n : ℕ) (ps : List (Part program))
        → FoundAt program slots n ps
        → PlacedAt program slots unit_pattern true n ps
    unfolding place_value
    PlacedAt-self n [] h = tt
    PlacedAt-self n (p ∷ ps) (now, later) = (now, PlacedAt-self (suc n) ps later)

    -- The pattern binds the indices from one on.
    abbrev BoundAt : List (Option ℕ) → ℕ → List (Part program) → Type 0
    BoundAt indices n [] = Unit {0}
    BoundAt indices n (p ∷ ps) = (binds_index program n indices ≡ true) × BoundAt indices (suc n) ps

    BoundAt-cons :
        (i : ℕ) (indices : List (Option ℕ)) (n : ℕ) (ps : List (Part program))
        → BoundAt indices n ps
        → BoundAt (some i ∷ indices) n ps
    BoundAt-cons i indices n [] h = tt
    BoundAt-cons i indices n (p ∷ ps) (now, later) =
        (ground (arith, now), BoundAt-cons i indices (suc n) ps later)

    BoundAt-kept :
        (n : ℕ) (ps : List (Part program))
        → All (IsCoded program) ps
        → BoundAt (kept_indices (enumerate n (fields_of program ps))) n ps
    unfolding kept_indices
    BoundAt-kept n [] h = tt
    BoundAt-kept n (p ∷ ps) (now, later) =
        let rest = kept_indices (enumerate (suc n) (fields_of program ps)) in
        let shape : kept_indices (enumerate n (fields_of program (p ∷ ps))) ≡ some n ∷ rest =
          rw (now.plain) refl in
        subst (λ is. BoundAt is n (p ∷ ps)) (sym shape)
          (ground arith, BoundAt-cons n rest (suc n) ps (BoundAt-kept (suc n) ps later))

    PlacedAt-bound :
        (indices : List (Option ℕ)) (n : ℕ) (ps : List (Part program))
        → FoundAt program slots n ps
        → BoundAt indices n ps
        → PlacedAt program slots (unnamed_pattern indices) false n ps
    unfolding place_value
    PlacedAt-bound indices n [] h b = tt
    PlacedAt-bound indices n (p ∷ ps) (now, later) (bound, more) =
        (rw bound now, PlacedAt-bound indices (suc n) ps later more)

    -- The pattern binds the names.
    abbrev BindsName : List (Option String) → Part program → Type 0
    BindsName names p = binds_name program p.field.ident names ≡ true

    BindsName-kept :
        (ps : List (Part program))
        → All (IsCoded program) ps
        → IsDistinct program ps
        → All (BindsName (kept_names (fields_of program ps))) ps
    unfolding kept_names
    BindsName-kept [] h d = tt
    BindsName-kept (p ∷ ps) (now, later) (same, others, distinct) = rw (now.plain) (
      rw same refl,
      All-map (λ q bound. ground (arith, bound)) ps (BindsName-kept ps later distinct),
    )

    IsPlaced-bound :
        (names : List (Option String)) (ps : List (Part program))
        → All (IsNamed program slots) ps
        → All (BindsName names) ps
        → All (IsPlaced program slots (named_pattern names) false) ps
    unfolding place_value
    IsPlaced-bound names [] h b = tt
    IsPlaced-bound names (p ∷ ps) (now, later) (bound, more) =
        (rw bound now, IsPlaced-bound names ps later more)

  -- The summands of a struct's fields, and of a variant's.
  pub Emits-self :
      (fields : Fields syn) (ps : List (Part program))
      → IsLaidOut fields ps
      → All (IsCoded program) ps
      → Emits
          (run_sum program
            (slots_of program ps)
            unit_pattern
            encode_unit
            (encode_fields true fields))
          (bytes_of program ps)
  unfolding encode_fields run_sum place_value
  Emits-self (named_fields fields) ps (same, distinct) h = rw same (
      Emits-named program (slots_of program ps) unit_pattern true ps encode_unit [] h
        (All-map (λ p found. found) ps (slots_of-All program ps distinct)) Emits-unit)
  Emits-self (unnamed_fields fields) ps same h = rw same (
      Emits-unnamed program (slots_of program ps) unit_pattern true ps 0 encode_unit [] h
        (PlacedAt-self (slots_of program ps) 0 ps (slots_of-FoundAt program ps)) Emits-unit)
  Emits-self unit_fields ps same h = rw same Emits-unit

  pub Emits-bound :
      (fields : Fields syn) (ps : List (Part program))
      → IsLaidOut fields ps
      → All (IsCoded program) ps
      → Emits
          (run_sum program
            (slots_of program ps)
            (field_list fields)
            encode_unit
            (encode_fields false fields))
          (bytes_of program ps)
  unfolding encode_fields run_sum field_list
  Emits-bound (named_fields fields) ps (same, distinct) h =
      let slots = slots_of program ps in
      rw same (
        Emits-named program slots (named_pattern (kept_names (fields_of program ps))) false ps
          encode_unit [] h
          (IsPlaced-bound slots (kept_names (fields_of program ps)) ps
            (slots_of-All program ps distinct) (BindsName-kept slots ps h distinct))
          Emits-unit)
  Emits-bound (unnamed_fields fields) ps same h =
      let slots = slots_of program ps in
      rw same (
        Emits-unnamed program slots
          (unnamed_pattern (kept_indices (enumerate 0 (fields_of program ps)))) false ps 0
          encode_unit [] h
          (PlacedAt-bound slots (kept_indices (enumerate 0 (fields_of program ps))) 0 ps
            (slots_of-FoundAt program ps) (BoundAt-kept slots 0 ps h))
          Emits-unit)
  Emits-bound unit_fields ps same h = rw same Emits-unit
