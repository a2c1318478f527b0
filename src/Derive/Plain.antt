-- ===== src/Derive/Plain.antt =====
-- Fields that have no attribute of the macros (codec-derive/src/attr.rs).
use dersp.Prelude.{
  Bool-cases, inl, inr, subst, if◌then◌else◌, Option, some, ◌≡◌, refl, Bool, false, none, List, [],
  ◌∷◌, All, arith,
}
use dersp.Exec.{ok, err, panic, stuck}
use dersp.Derive.Syntax.{Attribute, repeated_attribute, Syn, Result, ◌>>=◌, Field}
use dersp.Derive.Attr.{
  is_unknown, is_codec_path, only_attribute, parse_codec_attr, as_unknown, parse_with_ident,
  first_segment, CodecMeta, unknown_meta, tag_meta,
}

module _ {syn : Syn} where
  -- A field without an attribute of the macros.
  abbrev pub IsPlainField : Field syn → Type 0
  IsPlainField field = All (λ a. is_codec_path a.path ≡ false) field.attrs

  -- Once an attribute of the kind is found, the loop never ends without one.
  keeps_found :
      (a : Attribute syn) (attrs : List (Attribute syn))
      → ¬ (only_attribute is_codec_path (err repeated_attribute) (some a) attrs ≡ ok none)
  unfolding only_attribute
  keeps_found a [] e = cc
  keeps_found a (b ∷ rest) e = ground (arith, keeps_found a rest, e)

  abbrev GoesOnWith : Attribute syn → List (Attribute syn) → Bool → Type 0
  GoesOnWith a rest b =
      only_attribute is_codec_path (err repeated_attribute) (if b then some a else none) rest
      ≡ ok none

  none_found :
      (attrs : List (Attribute syn))
      → only_attribute is_codec_path (err repeated_attribute) none attrs ≡ ok none
      → All (λ a. is_codec_path a.path ≡ false) attrs
  unfolding only_attribute
  none_found [] e = tt
  none_found (a ∷ rest) e = elim (Bool-cases (is_codec_path a.path)) [
    | inl wanted ↦ elim (keeps_found a rest (subst (GoesOnWith a rest) wanted e)) [ ]
    | inr unwanted ↦ (unwanted, none_found rest (subst (GoesOnWith a rest) unwanted e))
  ]

  finds_none :
      (attrs : List (Attribute syn))
      → All (λ a. is_codec_path a.path ≡ false) attrs
      → only_attribute is_codec_path (err repeated_attribute) none attrs ≡ ok none
  unfolding only_attribute
  finds_none [] h = refl
  finds_none (a ∷ rest) (now, later) = rw now (finds_none rest later)

  -- An attribute is unknown, or refused.
  parsed_marks :
      (m : Result (CodecMeta syn)) → ¬ (((m >>= λ meta. ok (some meta)) >>= as_unknown) ≡ ok false)
  parsed_marks (ok unknown_meta) e = cc
  parsed_marks (ok (tag_meta x)) e = cc
  parsed_marks (err x) e = cc
  parsed_marks panic e = cc
  parsed_marks stuck e = cc

  found_none :
      (r : Result (Option (Attribute syn)))
      → ((r >>= parse_codec_attr) >>= as_unknown) ≡ ok false
      → r ≡ ok none
  unfolding parse_codec_attr
  found_none (ok none) e = refl
  found_none (ok (some a)) e =
      elim (parsed_marks (parse_with_ident (first_segment a.path) a.tokens) e) [ ]
  found_none (err x) e = cc
  found_none panic e = cc
  found_none stuck e = cc

  pub plain_is_unknown : (field : Field syn) → IsPlainField field → is_unknown field ≡ ok false
  unfolding is_unknown
  plain_is_unknown field h = rw (finds_none field.attrs h) refl

  pub is_unknown_plain : (field : Field syn) → is_unknown field ≡ ok false → IsPlainField field
  unfolding is_unknown
  is_unknown_plain field h =
      none_found field.attrs
        (found_none (only_attribute is_codec_path (err repeated_attribute) none field.attrs) h)
