-- ===== src/Codec/Laws/Exact/Sized.antt =====
-- codec/src/decode.rs where it succeeds: a `SizeWrapper`.
use dersp.Prelude.{
  ℕ, ◌<◌, ◌≡◌, refl, sym, ap, subst, ◌∙◌, ltb, List, [], ◌∷◌, ◌++◌, append-nil, length, Bool-cases,
  inl, inr, arith, ◌^◌, if◌then◌else◌,
}
use dersp.Codec.Read.{Decode, DecodeError, decode_error, fill_buf, is_empty}
use dersp.Codec.Types.{SizeWrapper, wrap}
use dersp.Codec.Encode.{to_be_bytes}
use dersp.Codec.Decode.{decode_u32, decode_size_wrapper, decode_within, try_into_usize}
use dersp.Exec.{Outcome, ok, err, panic, stuck, pure, lift, continue, ◌>>=◌, raise}
use dersp.Codec.Laws.Exact.{
  AreBytes, Taken, IsExact, IsExact-bind, IsExact-fill_buf, IsExact-lift, HoldsArray,
}
use dersp.Codec.Laws.Exact.Numbers.{Holds32, IsExact-u32}

-- The contents of a wrapper, behind their size.
abbrev pub HoldsSized {κ} : {T : Type 0} → (T → List ℕ → Type κ) → SizeWrapper T → List ℕ → Type κ
HoldsSized Holds w zs =
    (xs : List ℕ) × (zs ≡ to_be_bytes 4 (length xs) ++ xs) × (length xs < 2 ^ 32) × Holds w.inner xs

usize_value : (n m : ℕ) → try_into_usize n ≡ ok m → m ≡ n
unfolding try_into_usize
usize_value n m e = elim (Bool-cases (ltb n (2 ^ 64))) [
  | inl fits ↦ let fine : ok n ≡ ok m = rw fits at e in cc fine
  | inr large ↦ let wrong : err decode_error ≡ ok m = rw large at e in absurd (cc wrong)
]

module _ {κ} {T : Type 0} (Holds : T → List ℕ → Type κ) (decode : Decode T)
    (exact : IsExact Holds decode) where
  -- A slice that the decoder of the contents uses up.
  abbrev Filled : List ℕ → SizeWrapper T → List ℕ → Type κ
  Filled left w ys = (ys ≡ []) × (AreBytes left → Holds w.inner left)

  finish : T × List ℕ → Decode (SizeWrapper T)
  finish (value, left') = if is_empty left' then pure (wrap value) else raise decode_error

  within-Taken :
      (left : List ℕ) (p : Outcome DecodeError T × List ℕ) (s : List ℕ) (w : SizeWrapper T)
      (rest : List ℕ)
      → decode left ≡ p
      → ((λ z. continue p.0 (λ value. pure (value, p.1)) z) >>= finish) s ≡ (ok w, rest)
      → Taken (Filled left) s w rest
  unfolding is_empty finish
  within-Taken left (ok v, []) s w rest same e = (
    [],
    cc e,
    (
      refl,
      λ hs.
          let (xs, split, holds) = exact.taken left v [] hs same in
          subst (λ (i : T). Holds i left) (cc e)
            (subst (Holds v) (sym (append-nil xs) ∙ split) holds),
    ),
  )
  within-Taken left (ok v, b ∷ bs) s w rest same e = absurd (cc e)
  within-Taken left (err x, l) s w rest same e = absurd (cc e)
  within-Taken left (panic, l) s w rest same e = absurd (cc e)
  within-Taken left (stuck, l) s w rest same e = absurd (cc e)

  within-IsExact : (left : List ℕ) → IsExact (Filled left) (decode_within decode left >>= finish)
  unfolding decode_within
  within-IsExact left = record {
    taken = λ s w rest hs e. within-Taken left (decode left) s w rest refl e;
  }

  filled-IsExact :
      (size : ℕ)
      → IsExact
          (λ w ys. (length ys ≡ size) × Holds w.inner ys)
          (fill_buf size >>= λ left. decode_within decode left >>= finish)
  filled-IsExact size =
      IsExact-bind (HoldsArray size) Filled _ (fill_buf size) _ (IsExact-fill_buf size)
        within-IsExact
        λ left w xs ys (same, h) (none_left, holds).
          let whole : xs ++ ys ≡ left = ap (λ zs. xs ++ zs) none_left ∙ append-nil xs ∙ same in
          (ap length whole ∙ h.size, subst (Holds w.inner) (sym whole) (holds h.in_range))

  sized-IsExact :
      (n : ℕ)
      → IsExact
          (λ w ys. (length ys ≡ n) × Holds w.inner ys)
          (lift (try_into_usize n) >>= λ size.
            fill_buf size >>= λ left. decode_within decode left >>= finish)
  sized-IsExact n =
      IsExact-bind (λ m xs. (try_into_usize n ≡ ok m) × (xs ≡ [])) _ _ (lift (try_into_usize n)) _
        (IsExact-lift (try_into_usize n)) filled-IsExact
        λ m w xs ys (fits, none_before) (long, holds).
          let whole : xs ++ ys ≡ ys = ap (λ zs. zs ++ ys) none_before in
          (ap length whole ∙ long ∙ usize_value n m fits, subst (Holds w.inner) (sym whole) holds)

  pub IsExact-size_wrapper : IsExact (HoldsSized Holds) (decode_size_wrapper decode_u32 decode)
  unfolding decode_size_wrapper finish
  IsExact-size_wrapper =
      IsExact-bind Holds32 (λ n w ys. (length ys ≡ n) × Holds w.inner ys) _ decode_u32 _ IsExact-u32
        sized-IsExact
        λ n w xs ys (size, small) (long, holds). (
          ys,
          ap (λ zs. zs ++ ys) (size ∙ ap (to_be_bytes 4) (sym long)),
          omega (arith, long, small),
          holds,
        )
