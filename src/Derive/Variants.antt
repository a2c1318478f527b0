-- ===== src/Derive/Variants.antt =====
-- The arms that the macros of codec-derive/src/lib.rs write for the variants of an enum without a
-- converter, and the one that the code takes.
use dersp.Prelude.{ℕ, suc, ◌≡◌, refl, true, false, none, some, List, [], ◌∷◌, ◌++◌, All}
use dersp.Exec.{ok}
use Prim.Native.String.{String}
use text.Mathlib.Text.{◌==◌ as str_eq}
use dersp.Codec.Laws.Reads.{Reads}
use dersp.Derive.Syntax.{Syn, collect, enumerate, Variant}
use dersp.Derive.Attr.{CodecMeta, tag_meta, opt_unknown, get_variant_tag}
use dersp.Derive.Decode.{
  Construct, Pattern, meta_pattern, arm_pattern, decode_fields, decode_variant,
}
use dersp.Derive.Encode.{
  TagArm, tag_expr, tag_arm, tag_variant, impl_variants, field_list, encode_fields,
}
use dersp.Derive.Meaning.{find_arm, Program, Object, run_match, fits}
use dersp.Derive.Parts.{Part, IsCoded, slots_of, bytes_of}
use dersp.Derive.Places.{IsLaidOut}
use dersp.Derive.RoundTrip.{Reads-fields}

module _ {syn : Syn} (program : Program syn) (name : String) where
  -- A variant that the macros accept: its tag parses, and so do its fields.
  pub record IsAccepted (v : Variant syn) : Type 0 where
    pub meta : CodecMeta syn
    pub tagged : get_variant_tag v ≡ ok meta
    pub construct : Construct syn
    pub accepted : decode_fields (name ∷ v.ident ∷ []) v.fields (opt_unknown meta) ≡ ok construct

  module _ (chosen : Variant syn) (tag : syn.Expr) where
    -- A variant with a tag of its own that the chosen one's does not fit, and another name.
    pub record IsOther (v : Variant syn) : Type 0 where
      pub expr : syn.Expr
      pub tagged : get_variant_tag v ≡ ok (tag_meta expr)
      pub construct : Construct syn
      pub accepted : decode_fields (name ∷ v.ident ∷ []) v.fields none ≡ ok construct
      pub other_tag : program.fits_pattern (program.eval expr) (program.eval tag) ≡ false
      pub other_name : str_eq v.ident chosen.ident ≡ false

    accepted_arms :
        (n : ℕ) (after : List (Variant syn))
        → All IsAccepted after
        → (arms : List (Pattern syn × Construct syn)) × (collect
              (decode_variant name none)
              (enumerate n after)
            ≡ ok arms)
    unfolding collect decode_variant
    accepted_arms n [] h = ([], refl)
    accepted_arms n (v ∷ vs) (now, later) =
        let (arms, e) = accepted_arms (suc n) vs later in
        ((arm_pattern none n now.meta, now.construct) ∷ arms, rw (now.tagged, now.accepted, e) refl)

    accepted_tags :
        (after : List (Variant syn))
        → All IsAccepted after
        → (arms : List (String × TagArm syn)) × (collect (tag_variant none) after ≡ ok arms)
    unfolding collect tag_variant
    accepted_tags [] h = ([], refl)
    accepted_tags (v ∷ vs) (now, later) =
        let (arms, e) = accepted_tags vs later in
        ((v.ident, tag_arm none v.fields now.meta) ∷ arms, rw (now.tagged, e) refl)

    module _ (after : List (Variant syn)) (rest : All IsAccepted after)
        (tagged : get_variant_tag chosen ≡ ok (tag_meta tag))
        (own_name : str_eq chosen.ident chosen.ident ≡ true) where
      -- The tag's match finds the chosen variant's expression, and the match on the fields its
      -- fields.
      pub finds_tag :
          (before : List (Variant syn))
          → All IsOther before
          → (arms : List (String × TagArm syn)) × (collect
                (tag_variant none)
                (before ++ (chosen ∷ after))
              ≡ ok arms)
            × (find_arm program chosen.ident arms ≡ some (tag_expr none tag))
      unfolding collect tag_variant find_arm tag_arm
      finds_tag [] h =
          let (arms, e) = accepted_tags after rest in
          ((chosen.ident, tag_expr none tag) ∷ arms, rw (tagged, e) refl, rw own_name refl)
      finds_tag (v ∷ vs) (now, later) =
          let (arms, e, found) = finds_tag vs later in
          (
            (v.ident, tag_expr none now.expr) ∷ arms,
            rw (now.tagged, e) refl,
            rw (now.other_name) found,
          )

      pub finds_fields :
          (before : List (Variant syn))
          → All IsOther before
          → find_arm program chosen.ident (impl_variants (before ++ (chosen ∷ after)))
            ≡ some (field_list chosen.fields, encode_fields false chosen.fields)
      unfolding find_arm impl_variants
      finds_fields [] h = rw own_name refl
      finds_fields (v ∷ vs) (now, later) = rw (now.other_name) (finds_fields vs later)

      module _ (fits_own : program.fits_pattern (program.eval tag) (program.eval tag) ≡ true)
          (ps : List (Part program)) (laid_out : IsLaidOut program chosen.fields ps)
          (coded : All (IsCoded program) ps) where
        abbrev pub value : Object program
        value = record { path = name ∷ chosen.ident ∷ []; slots = slots_of program ps }

        -- The match on the tag takes the chosen variant's arm.
        pub takes_arm :
            (n : ℕ) (before : List (Variant syn))
            → All IsOther before
            → (arms : List (Pattern syn × Construct syn)) × (collect
                  (decode_variant name none)
                  (enumerate n (before ++ (chosen ∷ after)))
                ≡ ok arms)
              × Reads (run_match program [] arms (program.eval tag)) value (bytes_of program ps)
        unfolding collect decode_variant run_match fits
        takes_arm n [] h =
            let (arms, e) = accepted_arms (suc n) after rest in
            let (construct, accepted, reads) =
              Reads-fields program (name ∷ chosen.ident ∷ []) (some (program.eval tag))
                chosen.fields ps laid_out coded in
            (
              (meta_pattern (tag_meta tag), construct) ∷ arms,
              rw (tagged, accepted, e) refl,
              λ more. rw fits_own (reads more),
            )
        takes_arm n (v ∷ vs) (now, later) =
            let (arms, e, reads) = takes_arm (suc n) vs later in
            (
              (meta_pattern (tag_meta now.expr), now.construct) ∷ arms,
              rw (now.tagged, now.accepted, e) refl,
              λ more. rw (now.other_tag) (reads more),
            )
