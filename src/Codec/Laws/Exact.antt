-- ===== src/Codec/Laws/Exact.antt =====
-- codec/src/decode.rs where it succeeds: which bytes a decoder has taken, and what they make of
-- the value.
use dersp.Prelude.{
  ℕ, ◌≤◌, ◌<◌, ◌≡◌, refl, sym, ap, subst, ◌∙◌, false, ltb, List, [], ◌∷◌, ◌++◌, append-nil,
  append_assoc, length, length-take, take, drop, take-append-drop, All, All-parts, Bool-cases, inl,
  inr, arith, ◌*◌, ◌^◌, ◌%◌, ◌+◌, ◌/◌, if◌then◌else◌,
}
use dersp.Codec.Read.{Decode, DecodeError, decode_error, fill_buf, is_empty}
use dersp.Codec.Types.{SizeWrapper, wrap}
use dersp.Codec.Encode.{to_be_bytes}
use dersp.Codec.Decode.{
  decode_u8, decode_u32, decode_array, decode_vec, decode_size_wrapper, decode_within,
  try_into_usize,
}
use dersp.Codec.Laws.Reads.{Drains-bytes}
use dersp.Crypto.Keys.{IsArray}
use dersp.Exec.{Outcome, ok, err, panic, stuck, pure, lift, continue, ◌>>=◌, raise}
pub mod Numbers
pub mod Sized

-- A list of bytes.
abbrev pub AreBytes : List ℕ → Type 0
AreBytes xs = All (λ b. b < 256) xs

-- Where the decoder succeeds on bytes, it has taken some off the front that hold the value, as
-- `Holds` says of the two.
pub record IsExact {κ} {A : Type 0} (Holds : A → List ℕ → Type κ) (decode : Decode A) : Type κ where
  pub taken :
      (s : List ℕ) (a : A) (rest : List ℕ)
      → AreBytes s
      → decode s ≡ (ok a, rest)
      → (xs : List ℕ) × (xs ++ rest ≡ s) × Holds a xs

abbrev pub Taken {κ} : {A : Type 0} → (A → List ℕ → Type κ) → List ℕ → A → List ℕ → Type κ
Taken Holds s a rest = (xs : List ℕ) × (xs ++ rest ≡ s) × Holds a xs

pub AreBytes-parts :
    (xs rest s : List ℕ) → xs ++ rest ≡ s → AreBytes s → AreBytes xs × AreBytes rest
AreBytes-parts xs rest s e h = All-parts (λ b. b < 256) xs rest (subst AreBytes (sym e) h)

module _ {κ ι μ} {A B : Type 0} (P : A → List ℕ → Type κ) (Q : A → B → List ℕ → Type ι)
    (R : B → List ℕ → Type μ) (decode : Decode A) (f : A → Decode B) where
  bind-Taken :
      (p : Outcome DecodeError A × List ℕ) (s : List ℕ) (b : B) (rest : List ℕ)
      → AreBytes s
      → ((a : A) (left : List ℕ) → p ≡ (ok a, left) → Taken P s a left)
      → ((a : A) → IsExact (Q a) (f a))
      → ((a : A) (b : B) (xs ys : List ℕ) → P a xs → Q a b ys → R b (xs ++ ys))
      → continue p.0 f p.1 ≡ (ok b, rest)
      → Taken R s b rest
  bind-Taken (ok a, left) s b rest hs first later both e =
      let (xs, split, holds) = first a left refl in
      let (ys, split', holds') =
        (later a).taken left b rest (AreBytes-parts xs left s split hs).1 e in
      (
        xs ++ ys,
        append_assoc xs ys rest ∙ ap (λ zs. xs ++ zs) split' ∙ split,
        both a b xs ys holds holds',
      )
  bind-Taken (err e', left) s b rest hs first later both e = absurd (cc e)
  bind-Taken (panic, left) s b rest hs first later both e = absurd (cc e)
  bind-Taken (stuck, left) s b rest hs first later both e = absurd (cc e)

  pub IsExact-bind :
      IsExact P decode
      → ((a : A) → IsExact (Q a) (f a))
      → ((a : A) (b : B) (xs ys : List ℕ) → P a xs → Q a b ys → R b (xs ++ ys))
      → IsExact R (decode >>= f)
  IsExact-bind first later both = record {
    taken = λ s b rest hs e.
        bind-Taken (decode s) s b rest hs (λ a left same. first.taken s a left hs same) later both
          e;
  }

-- The last field of a struct.
module _ {κ μ} {A B : Type 0} (P : A → List ℕ → Type κ) (R : B → List ℕ → Type μ)
    (decode : Decode A) (make : A → B) where
  pub IsExact-map :
      IsExact P decode
      → ((a : A) (xs : List ℕ) → P a xs → R (make a) xs)
      → IsExact R (decode >>= λ a. pure (make a))
  IsExact-map exact holds =
      IsExact-bind P (λ a b ys. (b ≡ make a) × (ys ≡ [])) R decode _ exact
        (λ a. record { taken = λ s b rest hs e. ([], cc e, (cc e, refl)) })
        λ a b xs ys h (same, none_left).
          subst (R b) (sym (ap (λ zs. xs ++ zs) none_left ∙ append-nil xs))
            (subst (λ c. R c xs) (sym same) (holds a xs h))

fill_buf-Taken :
    (n : ℕ) (s a rest : List ℕ)
    → AreBytes s
    → fill_buf n s ≡ (ok a, rest)
    → Taken (λ a xs. (xs ≡ a) × IsArray n a) s a rest
unfolding fill_buf
fill_buf-Taken n s a rest hs e = elim (Bool-cases (ltb (length s) n)) [
  | inl short ↦
      let wrong : (err decode_error, s) ≡ (ok a, rest) = rw short at e in absurd (cc wrong)
  | inr long ↦
      let enough : n ≤ length s = ground (arith, long) in
      let fine : (ok (take n s), drop n s) ≡ (ok a, rest) = rw long at e in
      let same : take n s ≡ a = cc fine in
      let left : drop n s ≡ rest = cc fine in
      (
        take n s,
        ap (λ r. take n s ++ r) (sym left) ∙ take-append-drop n s,
        (
          same,
          record {
            size = ap length (sym same) ∙ length-take n s enough;
            in_range =
                subst AreBytes same
                  (AreBytes-parts (take n s) (drop n s) s (take-append-drop n s) hs).0;
          },
        ),
      )
]

-- An array holds itself.
abbrev pub HoldsArray : ℕ → List ℕ → List ℕ → Type 0
HoldsArray n a xs = (xs ≡ a) × IsArray n a

pub IsExact-fill_buf : (n : ℕ) → IsExact (HoldsArray n) (fill_buf n)
IsExact-fill_buf n = record { taken = fill_buf-Taken n }

pub IsExact-array : (n : ℕ) → IsExact (HoldsArray n) (decode_array n)
unfolding decode_array
IsExact-array n = IsExact-fill_buf n

pub IsExact-lift :
    {A : Type 0} (r : Outcome DecodeError A) → IsExact (λ a xs. (r ≡ ok a) × (xs ≡ [])) (lift r)
IsExact-lift r = record { taken = λ s a rest hs e. ([], cc e, (cc e, refl)) }
