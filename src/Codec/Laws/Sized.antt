-- ===== src/Codec/Laws/Sized.antt =====
-- `SizeWrapper` (codec/src/encode.rs): the size in front and the contents.
use dersp.Prelude.{
  ℕ, ◌+◌, ◌^◌, ◌≤◌, ◌<◌, ◌≡◌, refl, sym, ap, subst, ◌∙◌, true, false, ◌&&◌, Bool-cases, inl, inr,
  none, some, List, [], ◌∷◌, ◌++◌, append-nil, length, drop, replicate, length-replicate, le→leb,
  length-append, add_comm, arith,
}
use dersp.Exec.{ok, panic, bind-ok}
use dersp.Codec.Write.{WriteBuffer, slice_buffer, view_of}
use dersp.Codec.Write.Lawful.{Lawful, Fails}
use dersp.Codec.Write.SliceLaws.{slice_lawful}
use dersp.Codec.Types.{wrap}
use dersp.Codec.Encode.{
  Encode, DataSize, to_be_bytes, fill_region, encode_size_wrapper, u8_size, u16_size, u32_size,
  encode_u8,
}
use dersp.Codec.Laws.Emits.{Emits}
use dersp.Codec.Laws.Containers.{length-to_be_bytes, Emits-u8, Emits-u16, Emits-u32}

-- What the size types have in common: they hold the numbers of their width, in network order.
pub record IsSize (size : DataSize) : Type 1 where
  pub emits :
      (n : ℕ) → n < 256 ^ size.byte_size → Emits (size.encode n) (to_be_bytes size.byte_size n)
  pub holds : (n : ℕ) → n < 256 ^ size.byte_size → size.try_from n ≡ some n
  pub too_big : (n : ℕ) → 256 ^ size.byte_size ≤ n → size.try_from n ≡ none

drop_all : (xs : List ℕ) → drop (length xs) xs ≡ []
drop_all [] = refl
drop_all (x ∷ xs) = drop_all xs

module _ (size : DataSize) (is_size : IsSize size) where
  abbrev k : ℕ
  k = size.byte_size

  size_written :
      (w : WriteBuffer) (l : Lawful w) (b : w.Buf) (n : ℕ)
      → n < 256 ^ k
      → l.fits b k ≡ true
      → size.encode n slice_buffer (view_of (l.hole b k)) ≡ (
        ok (length (to_be_bytes k n)),
        slice_lawful.append (view_of (l.hole b k)) (to_be_bytes k n),
      )
  size_written w l b n small h =
      (is_size.emits n small).writes slice_buffer slice_lawful (view_of (l.hole b k))
        (le→leb _ _ (omega (arith, length-to_be_bytes k n, l.length-hole b k h)))

  -- The size is written over the hole that `later_fill` left for it.
  fill_hole :
      (w : WriteBuffer) (l : Lawful w) (b : w.Buf) (n : ℕ) (ys : List ℕ)
      → n < 256 ^ k
      → l.fits b k ≡ true
      → fill_region w (size.encode n) (l.region b k) (l.append b (l.hole b k ++ ys))
        ≡ (ok tt, l.append b (to_be_bytes k n ++ ys))
  unfolding fill_region
  fill_hole w l b n ys small h =
      let same : length (to_be_bytes k n) ≡ k = length-to_be_bytes k n in
      let gone : drop (length (to_be_bytes k n)) (l.hole b k) ≡ [] =
        ap (λ m. drop m (l.hole b k)) (same ∙ sym (l.length-hole b k h)) ∙ drop_all (l.hole b k) in
      rw (
        l.slice_at_hole b k ys h,
        size_written w l b n small h,
        gone,
        append-nil,
        l.write_at_hole b k (to_be_bytes k n) ys h same,
      )

  module _ {T : Type 0} (encode : Encode T) (inner : T) (ys : List ℕ)
      (e : Emits (encode inner) ys) where
    module _ (w : WriteBuffer) (l : Lawful w) (b : w.Buf) where
      -- The hole and the bytes after it fit if the encoding does.
      hole_and_rest :
          l.fits b k ≡ true
          → l.fits b (k + length ys) ≡ l.fits (l.append b (l.hole b k)) (length ys)
      hole_and_rest h =
          ap (λ m. l.fits b (m + length ys)) (sym (l.length-hole b k h))
          ∙ l.fits-add b (l.hole b k) (length ys)
          ∙ ap (λ t. t && l.fits (l.append b (l.hole b k)) (length ys))
              (ap (l.fits b) (l.length-hole b k h) ∙ h)

      abbrev zeros : List ℕ
      zeros = replicate k 0

      hole_fits : l.fits b (k + length ys) ≡ true → l.fits b k ≡ true
      hole_fits h =
          let split : l.fits b (k + length ys)
              ≡ (l.fits b k && l.fits (l.append b zeros) (length ys)) =
            rw (length-replicate {A = ℕ} k 0) at (l.fits-add b zeros (length ys)) in
          ground (arith, split)

      later :
          l.fits b (k + length ys) ≡ true
          → w.later_fill k (encode inner w) b
            ≡ (ok (l.region b k, length ys), l.append b (l.hole b k ++ ys))
      later h = l.later_fits b k (encode inner w) ys (length ys) (hole_fits h) (
          e.writes w l (l.append b (l.hole b k)) (sym (hole_and_rest (hole_fits h)) ∙ h)
          ∙ ap (λ c. (ok (length ys), c)) (l.append-append b (l.hole b k) ys))

      total : length (to_be_bytes k (length ys) ++ ys) ≡ k + length ys
      total =
          length-append (to_be_bytes k (length ys)) ys
          ∙ ap (λ m. m + length ys) (length-to_be_bytes k (length ys))

      writes_size_wrapper :
          length ys < 256 ^ k
          → l.fits b (length (to_be_bytes k (length ys) ++ ys)) ≡ true
          → encode_size_wrapper size encode (wrap inner) w b ≡ (
            ok (length (to_be_bytes k (length ys) ++ ys)),
            l.append b (to_be_bytes k (length ys) ++ ys),
          )
      unfolding encode_size_wrapper
      writes_size_wrapper small h =
          let fit : l.fits b (k + length ys) ≡ true = ap (l.fits b) (sym total) ∙ h in
          rw (later fit, is_size.holds (length ys) small, total, add_comm (length ys) k)
            (bind-ok (fill_region w (size.encode (length ys)) (l.region b k)) _
              (fill_hole w l b (length ys) ys small (hole_fits fit)))

      overflows_size_wrapper :
          l.fits b (length (to_be_bytes k (length ys) ++ ys)) ≡ false
          → Fails (encode_size_wrapper size encode (wrap inner) w b).0
      unfolding encode_size_wrapper
      overflows_size_wrapper h = elim (Bool-cases (l.fits b k)) [
        | inl room ↦
            let short : l.fits (l.append b (l.hole b k)) (length ys) ≡ false =
              sym (hole_and_rest room) ∙ ap (l.fits b) (sym total) ∙ h in
            let (x, f) = l.later_fails b k (encode inner w) room (e.overflows w l _ short) in
            (x, rw f)
        | inr none_left ↦ let (x, f) = l.later_overflows b k (encode inner w) none_left in (x, rw f)
      ]

  -- If a size type writes the numbers of its width, and the contents of a wrapper emit fewer
  -- bytes than 256 to that width, then in every lawful buffer the wrapper's encoding writes the
  -- number of these bytes in network order and then the bytes, returns how many it wrote, and
  -- fails if they do not fit.
  pub Emits-size_wrapper :
      {T : Type 0} (encode : Encode T) (inner : T) (ys : List ℕ)
      → Emits (encode inner) ys
      → length ys < 256 ^ k
      → Emits (encode_size_wrapper size encode (wrap inner)) (to_be_bytes k (length ys) ++ ys)
  Emits-size_wrapper encode inner ys e small = record {
    writes = λ w l b h. writes_size_wrapper encode inner ys e w l b small h;
    overflows = λ w l b h. overflows_size_wrapper encode inner ys e w l b h;
  }

  -- If a size type refuses the numbers above its width, and the contents of a wrapper emit at
  -- least 256 to that width bytes, then encoding the wrapper panics in every lawful buffer in
  -- which the size and the contents fit.
  pub size_wrapper-panics :
      {T : Type 0} (encode : Encode T) (inner : T) (ys : List ℕ)
      → Emits (encode inner) ys
      → 256 ^ k ≤ length ys
      → (w : WriteBuffer) (l : Lawful w) (b : w.Buf) → l.fits b (k + length ys) ≡ true
      → (encode_size_wrapper size encode (wrap inner) w b).0 ≡ panic
  unfolding encode_size_wrapper
  size_wrapper-panics encode inner ys e big w l b h =
      rw (later encode inner ys e w l b h, is_size.too_big (length ys) big)

pub u8-IsSize : IsSize u8_size
unfolding to_be_bytes
u8-IsSize = record {
  emits = λ n h. subst (λ x. Emits (encode_u8 n) (x ∷ [])) (omega arith) (Emits-u8 n);
  holds = λ n h. ground arith;
  too_big = λ n h. ground arith;
}

u16-IsSize : IsSize u16_size
u16-IsSize = record {
  emits = λ n h. Emits-u16 n;
  holds = λ n h. ground arith;
  too_big = λ n h. ground arith;
}

pub u32-IsSize : IsSize u32_size
u32-IsSize = record {
  emits = λ n h. Emits-u32 n;
  holds = λ n h. ground arith;
  too_big = λ n h. ground arith;
}
