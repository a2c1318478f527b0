-- ===== src/Codec/Laws/Reads.antt =====
-- codec/src/decode.rs against the wire format: what the decoders return on the bytes of a value.
use dersp.Prelude.{
  ℕ, zero, suc, ◌^◌, ◌≤◌, ◌<◌, ◌≡◌, refl, sym, ap, subst, ◌∙◌, true, false, ltb, Option, none, some,
  List, [], ◌∷◌, ◌++◌, append-nil, append_assoc, length, length-append, take-append, drop-append,
  All, arith,
}
use dersp.Exec.{ok, bind-ok, ◌>>=◌}
use dersp.Codec.Read.{Decode, fill_buf}
use dersp.Codec.Types.{wrap, opaque_from, ignore}
use dersp.Codec.Encode.{to_be_bytes}
use dersp.Codec.Decode.{
  decode_u8, decode_u16, decode_u32, decode_option, decode_vec_loop, decode_vec, decode_opaque,
  decode_size_wrapper, decode_array, decode_ignore,
}
use dersp.Codec.Laws.Containers.{wire_vec, wire_option}

-- The decoder takes `xs` off whatever bytes begin with it, and returns `x`.
abbrev pub Reads : {T : Type 0} → Decode T → T → List ℕ → Type 0
Reads decode x xs = (rest : List ℕ) → decode (xs ++ rest) ≡ (ok x, rest)

-- The decoder returns `x` where the bytes are `xs` and no more, and takes all of them.
abbrev pub Drains : {T : Type 0} → Decode T → T → List ℕ → Type 0
Drains decode x xs = decode xs ≡ (ok x, [])

pub Reads→Drains :
    {T : Type 0} (decode : Decode T) (x : T) (xs : List ℕ) → Reads decode x xs → Drains decode x xs
Reads→Drains decode x xs r = ap decode (sym (append-nil xs)) ∙ r []

module _ {A B : Type 0} (d : Decode A) (f : A → Decode B) (x : A) (y : B) (xs ys : List ℕ) where
  pub Reads-bind : Reads d x xs → Reads (f x) y ys → Reads (d >>= f) y (xs ++ ys)
  Reads-bind r q rest =
      ap (d >>= f) (append_assoc xs ys rest) ∙ bind-ok d f (r (ys ++ rest)) ∙ q rest

  pub Drains-bind : Reads d x xs → Drains (f x) y ys → Drains (d >>= f) y (xs ++ ys)
  Drains-bind r q = bind-ok d f (r ys) ∙ q

Drains-map :
    {A B : Type 0} (d : Decode A) (f : A → Decode B) (x : A) (y : B) (xs : List ℕ)
    → Drains d x xs
    → Drains (f x) y []
    → Drains (d >>= f) y xs
Drains-map d f x y xs r q = bind-ok d f r ∙ q

fill_buf-append : (xs rest : List ℕ) → fill_buf (length xs) (xs ++ rest) ≡ (ok xs, rest)
unfolding fill_buf
fill_buf-append xs rest =
    let long : ltb (length (xs ++ rest)) (length xs) ≡ false =
      ground (arith, length-append xs rest) in
    rw (long, take-append, drop-append)

Reads-fill_buf : (n : ℕ) (xs : List ℕ) → length xs ≡ n → Reads (fill_buf n) xs xs
Reads-fill_buf n xs e rest =
    subst (λ m. fill_buf m (xs ++ rest) ≡ (ok xs, rest)) e (fill_buf-append xs rest)

pub Reads-array : (n : ℕ) (xs : List ℕ) → length xs ≡ n → Reads (decode_array n) xs xs
unfolding decode_array
Reads-array n xs e = Reads-fill_buf n xs e

pub Reads-u8 : (x : ℕ) → Reads decode_u8 x (x ∷ [])
unfolding decode_u8
Reads-u8 x rest = rw (fill_buf-append (x ∷ []) rest)

pub Reads-u16 : (n : ℕ) → n < 2 ^ 16 → Reads decode_u16 n (to_be_bytes 2 n)
unfolding decode_u16 to_be_bytes
Reads-u16 n h rest =
    rw (fill_buf-append (to_be_bytes 2 n) rest) (ap (λ k. (ok k, rest)) (omega arith))

pub Reads-u32 : (n : ℕ) → n < 2 ^ 32 → Reads decode_u32 n (to_be_bytes 4 n)
unfolding decode_u32 to_be_bytes
Reads-u32 n h rest =
    rw (fill_buf-append (to_be_bytes 4 n) rest) (ap (λ k. (ok k, rest)) (omega arith))

Drains-ignore : (xs : List ℕ) → Drains decode_ignore ignore xs
unfolding decode_ignore
Drains-ignore xs = refl

module _ {T : Type 0} (decode : Decode T) where
  option_nonempty :
      (s : List ℕ) (x : T)
      → 0 < length s
      → Drains decode x s
      → Drains (decode_option decode) (some x) s
  unfolding decode_option
  option_nonempty [] x h d = elim h [ ]
  option_nonempty (b ∷ bs) x h d = rw d

  Drains-option :
      (wire : T → List ℕ) (o : Option T)
      → ((x : T) → Drains decode x (wire x))
      → ((x : T) → 0 < length (wire x))
      → Drains (decode_option decode) o (wire_option wire o)
  unfolding decode_option
  Drains-option wire none d long = refl
  Drains-option wire (some x) d long = option_nonempty (wire x) x (long x) (d x)

-- An element of a `Vec` is read whatever follows it, and takes at least one byte.
pub record IsElement {T : Type 0} (decode : Decode T) (wire : T → List ℕ) (x : T) : Type 0 where
  pub reads : Reads decode x (wire x)
  pub nonempty : 0 < length (wire x)

module _ {T : Type 0} (decode : Decode T) where
  vec_loop_step :
      (fuel : ℕ) (vector : List T) (x : T) (s rest : List ℕ)
      → 0 < length s
      → decode s ≡ (ok x, rest)
      → decode_vec_loop (suc fuel) decode vector s
        ≡ decode_vec_loop fuel decode (vector ++ (x ∷ [])) rest
  unfolding decode_vec_loop
  vec_loop_step fuel vector x [] rest h e = elim h [ ]
  vec_loop_step fuel vector x (b ∷ bs) rest h e = bind-ok decode _ e

  module _ (wire : T → List ℕ) where
    vec_loop_reads :
        (fuel : ℕ) (vector xs : List T)
        → length (wire_vec wire xs) ≤ fuel
        → All (IsElement decode wire) xs
        → decode_vec_loop fuel decode vector (wire_vec wire xs) ≡ (ok (vector ++ xs), [])
    vec_loop_reads fuel vector [] h hs = unfold decode_vec_loop in rw append-nil
    vec_loop_reads zero vector (x ∷ xs) h (hx, hs) =
        absurd (omega (arith, length-append (wire x) (wire_vec wire xs), hx.nonempty))
    vec_loop_reads (suc fuel) vector (x ∷ xs) h (hx, hs) =
        let long = length-append (wire x) (wire_vec wire xs) in
        vec_loop_step fuel vector x (wire x ++ wire_vec wire xs) (wire_vec wire xs)
          (omega (arith, hx.nonempty)) (hx.reads (wire_vec wire xs))
        ∙ vec_loop_reads fuel (vector ++ (x ∷ [])) xs (omega (arith, hx.nonempty)) hs
        ∙ ap (λ v. (ok v, [])) (append_assoc vector (x ∷ []) xs)

    -- If each element decodes from its own bytes whatever follows, and has at least one byte,
    -- then the decoder of a Vec returns exactly the elements from their bytes one after the
    -- other, and the buffer's length is fuel enough.
    pub Drains-vec :
        (xs : List T)
        → All (IsElement decode wire) xs
        → Drains (decode_vec decode) xs (wire_vec wire xs)
    unfolding decode_vec
    Drains-vec xs h = vec_loop_reads (length (wire_vec wire xs)) [] xs (omega arith) h

-- `Vec<u8>`: the rest of the buffer, whatever it is.
u8_elements : (xs : List ℕ) → All (IsElement decode_u8 (λ x. x ∷ [])) xs
u8_elements [] = tt
u8_elements (x ∷ xs) = (record { reads = Reads-u8 x; nonempty = omega arith }, u8_elements xs)

pub wire_bytes : (xs : List ℕ) → wire_vec (λ (x : ℕ). x ∷ []) xs ≡ xs
wire_bytes [] = refl
wire_bytes (x ∷ xs) = ap (λ r. x ∷ r) (wire_bytes xs)

pub Drains-bytes : (xs : List ℕ) → Drains (decode_vec decode_u8) xs xs
Drains-bytes xs =
    subst (Drains (decode_vec decode_u8) xs) (wire_bytes xs)
      (Drains-vec decode_u8 (λ x. x ∷ []) xs (u8_elements xs))

module _ (decode_size : Decode ℕ) (k n : ℕ) (reads : Reads decode_size n (to_be_bytes k n)) where
  Reads-opaque :
      (xs : List ℕ)
      → length xs ≡ n
      → Reads (decode_opaque decode_size) (opaque_from xs) (to_be_bytes k n ++ xs)
  unfolding decode_opaque
  Reads-opaque xs e rest =
      Reads-bind decode_size _ n (opaque_from xs) (to_be_bytes k n) xs reads
        (λ more. rw (Reads-fill_buf n xs e more)) rest

  -- If the size decodes from its bytes to a number below 2^64 and a decoder drains exactly that
  -- many bytes to a value, then the wrapper's decoder takes the size and these bytes off whatever
  -- begins with them and returns the value.
  pub Reads-size_wrapper :
      {T : Type 0} (decode : Decode T) (x : T) (xs : List ℕ)
      → length xs ≡ n
      → n < 2 ^ 64
      → Drains decode x xs
      → Reads (decode_size_wrapper decode_size decode) (wrap x) (to_be_bytes k n ++ xs)
  unfolding decode_size_wrapper
  Reads-size_wrapper decode x xs e small d rest =
      Reads-bind decode_size _ n (wrap x) (to_be_bytes k n) xs reads
        (λ more. rw (in_usize, Reads-fill_buf n xs e more, d)) rest
    where
      in_usize : ltb n (2 ^ 64) ≡ true
      in_usize = ground arith
