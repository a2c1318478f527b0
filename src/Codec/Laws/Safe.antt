-- ===== src/Codec/Laws/Safe.antt =====
-- codec/src/decode.rs on bytes that nobody vouches for.
use dersp.Prelude.{
  ℕ, zero, suc, ◌+◌, ◌≤◌, ◌≡◌, refl, ap, ◌∙◌, false, ltb, List, [], ◌∷◌, ◌++◌, append_assoc, length,
  take, length-append, length-take, take-append-drop, Bool-cases, inl, inr, arith, if◌then◌else◌,
  ◌^◌,
}
use dersp.Exec.{Outcome, ok, err, panic, stuck, pure, raise, lift, continue, ◌>>=◌}
use dersp.Codec.Read.{Decode, DecodeError, decode_error, fill_buf, is_empty}
use dersp.Codec.Types.{wrap}
use dersp.Codec.Decode.{
  try_into_usize, decode_within, decode_u8, decode_u32, decode_vec_loop, decode_vec,
  decode_size_wrapper, decode_array, try_into_usize, decode_within,
}

-- `Ok` or `Err`: no panic, and no loop that does not end.
abbrev pub Settles : {A : Type 0} → Outcome DecodeError A → Type 0
Settles (ok a) = Unit {0}
Settles (err e) = Unit {0}
Settles panic = ⊥
Settles stuck = ⊥

-- On any bytes the decoder settles, and what it leaves are the last of the bytes it was given: at
-- least `n` fewer than there were, if it succeeds.
pub record IsSafeFrom (n : ℕ) {A : Type 0} (decode : Decode A) (s : List ℕ) : Type 0 where
  pub settles : Settles (decode s).0
  pub front : List ℕ
  pub splits : front ++ (decode s).1 ≡ s
  pub takes : (a : A) → (decode s).0 ≡ ok a → n ≤ length front

pub record IsSafe (n : ℕ) {A : Type 0} (decode : Decode A) : Type 0 where
  pub from : (s : List ℕ) → IsSafeFrom n decode s

-- The record's contents for a run `p` on `s`.
abbrev IsSafeRun : {A : Type 0} → ℕ → Outcome DecodeError A × List ℕ → List ℕ → Type 0
IsSafeRun {A} n p s =
    Settles p.0 × (front : List ℕ) × (front ++ p.1 ≡ s) × ((a : A) → p.0 ≡ ok a → n ≤ length front)

module _ {A : Type 0} (n : ℕ) (decode : Decode A) where
  run_of : (s : List ℕ) → IsSafe n decode → IsSafeRun n (decode s) s
  run_of s h = let r = h.from s in (r.settles, r.front, r.splits, r.takes)

  IsSafe-by : ((s : List ℕ) → IsSafeRun n (decode s) s) → IsSafe n decode
  IsSafe-by h = record {
    from = λ s.
        let (settles, front, splits, takes) = h s in
        record { settles = settles; front = front; splits = splits; takes = takes };
  }

module _ {A : Type 0} where
  pub IsSafe-pure : (a : A) → IsSafe 0 (pure a)
  IsSafe-pure a = IsSafe-by 0 (pure a) (λ s. (tt, [], refl, λ b e. omega arith))

  pub IsSafe-raise : (n : ℕ) → IsSafe n (raise {A = A} decode_error)
  IsSafe-raise n = IsSafe-by n (raise decode_error) (λ s. (tt, [], refl, λ b e. cc))

module _ {A B : Type 0} (m n : ℕ) (decode : Decode A) (f : A → Decode B) where
  bind_run :
      (p : Outcome DecodeError A × List ℕ) (s : List ℕ)
      → IsSafeRun m p s
      → ((a : A) → IsSafe n (f a))
      → IsSafeRun (m + n) (continue p.0 f p.1) s
  bind_run (ok a, left) s (settles, front, splits, takes) k =
      let (settles', front', splits', takes') = run_of n (f a) left (k a) in
      (
        settles',
        front ++ front',
        append_assoc front front' (f a left).1 ∙ ap (λ xs. front ++ xs) splits' ∙ splits,
        λ b e. omega (arith, takes a refl, takes' b e, length-append front front'),
      )
  bind_run (err e, left) s (settles, front, splits, takes) k = (tt, front, splits, λ b e. cc)
  bind_run (panic, left) s (settles, front, splits, takes) k = elim settles [ ]
  bind_run (stuck, left) s (settles, front, splits, takes) k = elim settles [ ]

  pub IsSafe-bind : IsSafe m decode → ((a : A) → IsSafe n (f a)) → IsSafe (m + n) (decode >>= f)
  IsSafe-bind h k =
      IsSafe-by (m + n) (decode >>= f) (λ s. bind_run (decode s) s (run_of m decode s h) k)

pub IsSafe-le :
    {A : Type 0} (m n : ℕ) (decode : Decode A) → n ≤ m → IsSafe m decode → IsSafe n decode
IsSafe-le m n decode le h = IsSafe-by n decode λ s.
    let (settles, front, splits, takes) = run_of m decode s h in
    (settles, front, splits, λ a e. omega (arith, le, takes a e))

fill_buf_run : (n : ℕ) (s : List ℕ) → IsSafeRun n (fill_buf n s) s
unfolding fill_buf
fill_buf_run n s = elim (Bool-cases (ltb (length s) n)) [
  | inl short ↦ rw short (tt, [], refl, λ b e. cc)
  | inr long ↦
      let enough : n ≤ length s = ground (arith, long) in
      rw long (tt, take n s, take-append-drop n s, λ b e. omega (arith, length-take n s enough))
]

pub IsSafe-fill_buf : (n : ℕ) → IsSafe n (fill_buf n)
IsSafe-fill_buf n = IsSafe-by n (fill_buf n) (fill_buf_run n)

pub IsSafe-array : (n : ℕ) → IsSafe n (decode_array n)
unfolding decode_array
IsSafe-array n = IsSafe-fill_buf n

u8_run : (s : List ℕ) → IsSafeRun 1 (decode_u8 s) s
unfolding decode_u8 fill_buf
u8_run [] = (tt, [], refl, λ b e. cc)
u8_run (x ∷ xs) =
    let long : ltb (length (x ∷ xs)) 1 ≡ false = ground arith in
    rw long (tt, x ∷ [], refl, λ b e. omega arith)

pub IsSafe-u8 : IsSafe 1 decode_u8
IsSafe-u8 = IsSafe-by 1 decode_u8 u8_run

u32_run : (s : List ℕ) → IsSafeRun 4 (decode_u32 s) s
unfolding decode_u32 fill_buf
u32_run [] = (tt, [], refl, λ b e. cc)
u32_run (a ∷ []) = (tt, [], refl, λ b e. cc)
u32_run (a ∷ b ∷ []) = (tt, [], refl, λ b e. cc)
u32_run (a ∷ b ∷ c ∷ []) = (tt, [], refl, λ b e. cc)
u32_run (a ∷ b ∷ c ∷ d ∷ xs) =
    let long : ltb (length (a ∷ b ∷ c ∷ d ∷ xs)) 4 ≡ false = ground arith in
    rw long (tt, a ∷ b ∷ c ∷ d ∷ [], refl, λ b e. omega arith)

pub IsSafe-u32 : IsSafe 4 decode_u32
IsSafe-u32 = IsSafe-by 4 decode_u32 u32_run

module _ {A : Type 0} (decode : Decode A) (h : IsSafe 1 decode) where
  vec_step :
      (fuel : ℕ) (vector : List A) (p : Outcome DecodeError A × List ℕ) (s : List ℕ)
      → length s ≤ suc fuel
      → IsSafeRun 1 p s
      → ((more : List A) (left : List ℕ)
          → length left ≤ fuel
          → IsSafeRun 0 (decode_vec_loop fuel decode more left) left)
      → IsSafeRun 0
          (continue p.0 (λ elem. decode_vec_loop fuel decode (vector ++ (elem ∷ []))) p.1)
          s
  vec_step fuel vector (ok a, left) s small (settles, front, splits, takes) ih =
      let shorter : length left ≤ fuel =
        omega (arith, small, takes a refl, ap length splits, length-append front left) in
      let (settles', front', splits', _) = ih (vector ++ (a ∷ [])) left shorter in
      (
        settles',
        front ++ front',
        append_assoc front front' (decode_vec_loop fuel decode (vector ++ (a ∷ [])) left).1
            ∙ ap (λ xs. front ++ xs) splits'
            ∙ splits,
        λ b e. omega arith,
      )
  vec_step fuel vector (err e, left) s small (settles, front, splits, takes) ih =
      (tt, front, splits, λ b e. cc)
  vec_step fuel vector (panic, left) s small (settles, front, splits, takes) ih = elim settles [ ]
  vec_step fuel vector (stuck, left) s small (settles, front, splits, takes) ih = elim settles [ ]

  vec_run :
      (fuel : ℕ) (vector : List A) (s : List ℕ)
      → length s ≤ fuel
      → IsSafeRun 0 (decode_vec_loop fuel decode vector s) s
  unfolding decode_vec_loop
  vec_run fuel vector [] small = (tt, [], refl, λ b e. omega arith)
  vec_run zero vector (b ∷ bs) small = absurd (omega (arith, small))
  vec_run (suc fuel) vector (b ∷ bs) small =
      vec_step fuel vector (decode (b ∷ bs)) (b ∷ bs) small (run_of 1 decode (b ∷ bs) h)
        (vec_run fuel)

  pub IsSafe-vec : IsSafe 0 (decode_vec decode)
  IsSafe-vec =
      IsSafe-by 0 (decode_vec decode)
        (λ s. unfold decode_vec in vec_run (length s) [] s (omega arith))

-- The decoder of the contents of a wrapper, on the wrapper's slice.
within_run :
    {A : Type 0} (p : Outcome DecodeError A × List ℕ) (s : List ℕ)
    → Settles p.0
    → IsSafeRun {A = A × List ℕ} 0 (continue p.0 (λ value. pure (value, p.1)) s) s
within_run (ok a, left) s settles = (tt, [], refl, λ b e. omega arith)
within_run (err e, left) s settles = (tt, [], refl, λ b e. cc)
within_run (panic, left) s settles = elim settles [ ]
within_run (stuck, left) s settles = elim settles [ ]

IsSafe-usize : (n : ℕ) → IsSafe 0 (lift (try_into_usize n))
unfolding try_into_usize
IsSafe-usize n = IsSafe-by 0 (lift (try_into_usize n)) λ s. elim (Bool-cases (ltb n (2 ^ 64))) [
  | inl fits ↦ rw fits (tt, [], refl, λ b e. omega arith)
  | inr large ↦ rw large (tt, [], refl, λ b e. cc)
]

module _ {A : Type 0} (n : ℕ) (decode_size : Decode ℕ) (decode : Decode A) where
  end_of_slice :
      (value : A) (left : List ℕ)
      → IsSafe 0 (if is_empty left then pure (wrap value) else raise decode_error)
  unfolding is_empty
  end_of_slice value [] = IsSafe-pure (wrap value)
  end_of_slice value (b ∷ bs) = IsSafe-raise 0

  pub IsSafe-size_wrapper :
      IsSafe n decode_size → IsSafe 0 decode → IsSafe n (decode_size_wrapper decode_size decode)
  unfolding decode_size_wrapper decode_within
  IsSafe-size_wrapper h k = IsSafe-le (n + 0) n _ (omega arith) (
      IsSafe-bind n 0 decode_size _ h λ size.
        IsSafe-bind 0 0 (lift (try_into_usize size)) _ (IsSafe-usize size) λ bytes.
          IsSafe-bind 0 0 (fill_buf bytes) _
            (IsSafe-le bytes 0 _ (omega arith) (IsSafe-fill_buf bytes))
            λ left.
              IsSafe-bind 0 0 (decode_within decode left) _
                (IsSafe-by 0 (decode_within decode left)
                  (λ s. within_run (decode left) s (k.from left).settles))
                λ r. end_of_slice r.0 r.1)
