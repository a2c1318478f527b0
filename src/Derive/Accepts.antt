-- ===== src/Derive/Accepts.antt =====
-- Which inputs the macros of codec-derive/src/lib.rs accept, and which they refuse with an error.
use dersp.Prelude.{subst, Option, ◌≡◌, ◌↔◌, refl, Bool, true, false, none, List, [], ◌∷◌, All}
use dersp.Exec.{ok, err, panic, stuck}
use Prim.Native.String.{String}
use dersp.Derive.Syntax.{
  DeriveInput, Syn, Result, ◌>>=◌, collect, Field, Fields, named_fields, unnamed_fields, struct_of,
}
use dersp.Derive.Attr.{is_unknown, extract_converter, Converter}
use dersp.Derive.Decode.{decode_field, init_field, decode_fields, decode_data, decode_derive}
use dersp.Derive.Encode.{encode_data, encode_derive}
use dersp.Derive.Plain.{IsPlainField, plain_is_unknown, is_unknown_plain}

-- The macro returns code, and no error.
abbrev pub Accepts : {A : Type 0} → Result A → Type 0
Accepts {A} r = (code : A) × (r ≡ ok code)

Accepts-bind :
    {A B : Type 0} (r : Result A) (f : A → Result B)
    → Accepts (r >>= f)
    → (a : A) × (r ≡ ok a) × Accepts (f a)
Accepts-bind (ok a) f h = (a, refl, h)
Accepts-bind (err e) f (b, h) = cc
Accepts-bind panic f (b, h) = cc
Accepts-bind stuck f (b, h) = cc

bind-Accepts :
    {A B : Type 0} (r : Result A) (f : A → Result B) (a : A)
    → r ≡ ok a
    → Accepts (f a)
    → Accepts (r >>= f)
bind-Accepts r f a e h = rw e h

module _ {A B : Type 0} (f : A → Result B) where
  -- A list is accepted exactly if each of its members is.
  collect_each : (xs : List A) → Accepts (collect f xs) → All (λ a. Accepts (f a)) xs
  unfolding collect
  collect_each [] h = tt
  collect_each (x ∷ xs) h =
      let (b, e, more) = Accepts-bind (f x) _ h in
      let (bs, e', _) = Accepts-bind (collect f xs) _ more in ((b, e), collect_each xs (bs, e'))

  collect-All : (xs : List A) → All (λ a. Accepts (f a)) xs → Accepts (collect f xs)
  unfolding collect
  collect-All [] h = ([], refl)
  collect-All (x ∷ xs) ((b, e), h) =
      let (bs, e') = collect-All xs h in
      bind-Accepts (f x) _ b e (bind-Accepts (collect f xs) _ bs e' (b ∷ bs, refl))

module _ {syn : Syn} where
  field_plain :
      (r : Result Bool) (field : Field syn) → Accepts (r >>= init_field field none) → r ≡ ok false
  unfolding init_field
  field_plain (ok true) field (c, h) = cc
  field_plain (ok false) field h = refl
  field_plain (err e) field (c, h) = cc
  field_plain panic field (c, h) = cc
  field_plain stuck field (c, h) = cc

  plain_field_accepted :
      (field : Field syn) → IsPlainField field → Accepts (decode_field none field)
  unfolding decode_field init_field
  plain_field_accepted field h = rw (plain_is_unknown field h) (_, refl)

  All-plain :
      (fields : List (Field syn))
      → All (λ f. Accepts (decode_field none f)) fields
      → All IsPlainField fields
  unfolding decode_field
  All-plain [] h = tt
  All-plain (f ∷ fs) (h, more) =
      (is_unknown_plain f (field_plain (is_unknown f) f h), All-plain fs more)

  All-accepted :
      (fields : List (Field syn))
      → All IsPlainField fields
      → All (λ f. Accepts (decode_field none f)) fields
  All-accepted [] h = tt
  All-accepted (f ∷ fs) (h, more) = (plain_field_accepted f h, All-accepted fs more)

  abbrev pub fields_of : Bool → List (Field syn) → Fields syn
  fields_of true fields = named_fields fields
  fields_of false fields = unnamed_fields fields

  decode_fields_iff :
      (path : List String) (named : Bool) (fields : List (Field syn))
      → Accepts (decode_fields path (fields_of named fields) none) ↔ All IsPlainField fields
  unfolding decode_fields
  decode_fields_iff path true fields = (
    λ h.
        let (inits, e, _) = Accepts-bind (collect (decode_field none) fields) _ h in
        All-plain fields (collect_each (decode_field none) fields (inits, e)),
    λ h.
        let (inits, e) = collect-All (decode_field none) fields (All-accepted fields h) in
        bind-Accepts (collect (decode_field none) fields) _ inits e (_, refl),
  )
  decode_fields_iff path false fields = (
    λ h.
        let (inits, e, _) = Accepts-bind (collect (decode_field none) fields) _ h in
        All-plain fields (collect_each (decode_field none) fields (inits, e)),
    λ h.
        let (inits, e) = collect-All (decode_field none) fields (All-accepted fields h) in
        bind-Accepts (collect (decode_field none) fields) _ inits e (_, refl),
  )

  decode_data_iff :
      (name : String) (named : Bool) (fields : List (Field syn))
      (converter : Option (Converter syn))
      → Accepts (decode_data name (struct_of (fields_of named fields)) converter)
        ↔ All IsPlainField fields
  unfolding decode_data
  decode_data_iff name named fields converter = (
    λ h.
        let (c, e, _) =
          Accepts-bind (decode_fields (name ∷ []) (fields_of named fields) none) _ h in
        (decode_fields_iff (name ∷ []) named fields).0 (c, e),
    λ h.
        let (c, e) = (decode_fields_iff (name ∷ []) named fields).1 h in
        bind-Accepts (decode_fields (name ∷ []) (fields_of named fields) none) _ c e (_, refl),
  )

  -- The macro Decode accepts a struct with named or unnamed fields exactly if the attributes of
  -- the struct itself are accepted (extract_converter) and no field has an attribute whose path
  -- is `tag` or `unknown`, well-formed or not; for the macro Encode the condition on the struct's
  -- own attributes is the only one.
  pub struct_accepted_iff :
      (input : DeriveInput syn) (named : Bool) (fields : List (Field syn))
      → input.body ≡ struct_of (fields_of named fields)
      → (Accepts (decode_derive input)
          ↔ (Accepts (extract_converter input) × All IsPlainField fields))
        × (Accepts (encode_derive input) ↔ Accepts (extract_converter input))
  unfolding decode_derive encode_derive encode_data
  struct_accepted_iff input named fields body = (
    (
      λ h.
          let (c, e, more) = Accepts-bind (extract_converter input) _ h in
          let (code, e', _) = Accepts-bind (decode_data input.ident input.body c) _ more in
          (
            (c, e),
            (decode_data_iff input.ident named fields c).0
                (code, subst (λ d. decode_data input.ident d c ≡ ok code) body e'),
          ),
      λ h.
          let ((c, e), plain) = h in
          let (code, e') = (decode_data_iff input.ident named fields c).1 plain in
          bind-Accepts (extract_converter input) _ c e
            (bind-Accepts (decode_data input.ident input.body c) _ code (rw body e') (_, refl)),
    ),
    (
      λ h. let (c, e, _) = Accepts-bind (extract_converter input) _ h in (c, e),
      λ h. let (c, e) = h in bind-Accepts (extract_converter input) _ c e (rw body (_, refl)),
    ),
  )
