-- ===== src/Derive/Syntax.antt =====
-- The syntax that the macros of codec-derive/src read: the part of the crate `syn` that they use.
use dersp.Prelude.{ℕ, suc, Bool, Option, List, [], ◌∷◌, ◌++◌}
use dersp.Exec.{Outcome, ok, err, panic, stuck}
use Prim.Native.String.{String}

-- What stays opaque: tokens, expressions and types, and the parsers of an attribute's tokens, which
-- take all of them: `( expression )` and `( path )`.
pub record Syn : Type 1 where
  pub Tokens : Type 0
  pub Expr : Type 0
  pub Ty : Type 0
  pub has_tokens : Tokens → Bool
  pub parse_expr : Tokens → Option Expr
  pub parse_path : Tokens → Option (List String)

-- The errors that the macros report at compile time.
pub data DeriveError : Type 0 where
  missing_tag : DeriveError
  invalid_tag : DeriveError
  repeated_attribute : DeriveError
  repeated_converter : DeriveError
  misplaced_unknown : DeriveError
  not_for_unions : DeriveError
  parse_failed : DeriveError

abbrev pub Result : Type 0 → Type 0
Result A = Outcome DeriveError A

module _ {A B : Type 0} where
  infixl 5 ◌>>=◌
  abbrev pub ◌>>=◌ : Result A → (A → Result B) → Result B
  ◌>>=◌ (ok a) f = f a
  ◌>>=◌ (err e) f = err e
  ◌>>=◌ panic f = panic
  ◌>>=◌ stuck f = stuck

module _ {A B : Type 0} where
  -- `.iter().map(f).collect::<Result<Vec<_>>>()`: the first error, if there is one.
  unfoldable pub collect : (A → Result B) → List A → Result (List B)
  collect f [] = ok []
  collect f (a ∷ rest) = do b ← f a; bs ← collect f rest; ok (b ∷ bs)

-- `.iter().enumerate()`, from the number that comes first
abbrev pub enumerate : {A : Type 0} → ℕ → List A → List (ℕ × A)
enumerate n [] = []
enumerate n (a ∷ rest) = (n, a) ∷ enumerate (suc n) rest

-- `#(#lists)*`: quoted lists one after the other
abbrev pub flatten : {A : Type 0} → List (List A) → List A
flatten [] = []
flatten (first ∷ rest) = first ++ flatten rest

module _ (syn : Syn) where
  -- `Attribute`: the segments of its path, and the tokens behind it.
  pub record Attribute : Type 0 where
    pub path : List String
    pub tokens : syn.Tokens

  pub record Field : Type 0 where
    pub attrs : List Attribute
    pub ident : Option String
    pub ty : syn.Ty

  pub data Fields : Type 0 where
    named_fields : List Field → Fields
    unnamed_fields : List Field → Fields
    unit_fields : Fields

  pub record Variant : Type 0 where
    pub attrs : List Attribute
    pub ident : String
    pub fields : Fields

  pub data Data : Type 0 where
    struct_of : Fields → Data
    enum_of : List Variant → Data
    union_of : Data

  pub data GenericParam : Type 0 where
    type_param : String → List (List String) → GenericParam
    other_param : String → GenericParam

  pub record DeriveInput : Type 0 where
    pub attrs : List Attribute
    pub ident : String
    pub generics : List GenericParam
    pub body : Data
