-- ===== src/Codec/Laws/Containers.antt =====
-- The encodings of numbers, arrays, `Option` and `Vec` (codec/src/encode.rs).
use dersp.Prelude.{
  ℕ, zero, suc, ◌+◌, ◌≡◌, refl, ap, ◌∙◌, true, false, ◌&&◌, Bool-cases, inl, inr, Option, none,
  some, List, [], ◌∷◌, ◌++◌, zero-add, add-zero, add_assoc, length, length-append, All, arith,
}
use dersp.Exec.{ok}
use dersp.Codec.Write.{WriteBuffer}
use dersp.Codec.Write.Lawful.{Lawful, Fails}
use dersp.Codec.Encode.{
  Encode, to_be_bytes, encode_u8, encode_u16, encode_u32, encode_u64, encode_slice, encode_array,
  encode_option, encode_vec_loop, encode_vec,
}
use dersp.Codec.Laws.Emits.{Emits, Emits-bytes, Emits-unit}

pub length-to_be_bytes : (k n : ℕ) → length (to_be_bytes k n) ≡ k
unfolding to_be_bytes
length-to_be_bytes zero n = refl
length-to_be_bytes (suc k) n = ap suc (length-to_be_bytes k n)

pub Emits-u8 : (x : ℕ) → Emits (encode_u8 x) (x ∷ [])
unfolding encode_u8
Emits-u8 x = Emits-bytes (x ∷ []) 1 refl

pub Emits-u16 : (x : ℕ) → Emits (encode_u16 x) (to_be_bytes 2 x)
unfolding encode_u16
Emits-u16 x = Emits-bytes (to_be_bytes 2 x) 2 (length-to_be_bytes 2 x)

pub Emits-u32 : (x : ℕ) → Emits (encode_u32 x) (to_be_bytes 4 x)
unfolding encode_u32
Emits-u32 x = Emits-bytes (to_be_bytes 4 x) 4 (length-to_be_bytes 4 x)

Emits-u64 : (x : ℕ) → Emits (encode_u64 x) (to_be_bytes 8 x)
unfolding encode_u64
Emits-u64 x = Emits-bytes (to_be_bytes 8 x) 8 (length-to_be_bytes 8 x)

pub Emits-slice : (xs : List ℕ) → Emits (encode_slice xs) xs
unfolding encode_slice
Emits-slice xs = Emits-bytes xs (length xs) refl

pub Emits-array : (size : ℕ) (xs : List ℕ) → length xs ≡ size → Emits (encode_array size xs) xs
unfolding encode_array
Emits-array size xs e = Emits-bytes xs size e

-- The bytes of an optional value.
abbrev pub wire_option : {T : Type 0} → (T → List ℕ) → Option T → List ℕ
wire_option wire none = []
wire_option wire (some value) = wire value

Emits-option :
    {T : Type 0} (encode : Encode T) (wire : T → List ℕ) (o : Option T)
    → ((x : T) → Emits (encode x) (wire x))
    → Emits (encode_option encode o) (wire_option wire o)
unfolding encode_option
Emits-option encode wire none emits = Emits-unit
Emits-option encode wire (some value) emits = emits value

-- The bytes of the elements, one after the other.
abbrev pub wire_vec : {T : Type 0} → (T → List ℕ) → List T → List ℕ
wire_vec wire [] = []
wire_vec wire (x ∷ xs) = wire x ++ wire_vec wire xs

module _ {T : Type 0} (encode : Encode T) (wire : T → List ℕ) where
  abbrev EmitsAll : List T → Type 1
  EmitsAll = All (λ x. Emits (encode x) (wire x))

  module _ (w : WriteBuffer) (l : Lawful w) where
    first_or_both :
        (buf : w.Buf) (x : T) (xs : List T)
        → l.fits buf (length (wire_vec wire (x ∷ xs))) ≡ (
            l.fits buf (length (wire x))
            && l.fits (l.append buf (wire x)) (length (wire_vec wire xs)))
    first_or_both buf x xs =
        ap (l.fits buf) (length-append (wire x) (wire_vec wire xs))
        ∙ l.fits-add buf (wire x) (length (wire_vec wire xs))

    writes_vec_loop :
        (total : ℕ) (xs : List T) (buf : w.Buf)
        → EmitsAll xs
        → l.fits buf (length (wire_vec wire xs)) ≡ true
        → encode_vec_loop encode total xs w buf
          ≡ (ok (total + length (wire_vec wire xs)), l.append buf (wire_vec wire xs))
    unfolding encode_vec_loop
    writes_vec_loop total [] buf emits h = rw (l.append_nil buf, add-zero)
    writes_vec_loop total (x ∷ xs) buf (ex, exs) h = rw (
      ex.writes w l buf (ground (arith, first_or_both buf x xs)),
      writes_vec_loop (total + length (wire x)) xs (l.append buf (wire x)) exs
          (ground (arith, first_or_both buf x xs)),
      l.append-append,
      length-append,
      add_assoc,
    )

    overflows_vec_loop :
        (total : ℕ) (xs : List T) (buf : w.Buf)
        → EmitsAll xs
        → l.fits buf (length (wire_vec wire xs)) ≡ false
        → Fails (encode_vec_loop encode total xs w buf).0
    unfolding encode_vec_loop
    overflows_vec_loop total [] buf emits h = cc (l.fits_zero buf)
    overflows_vec_loop total (x ∷ xs) buf (ex, exs) h =
        elim (Bool-cases (l.fits buf (length (wire x)))) [
          | inl first ↦
              let (e, f) =
                overflows_vec_loop (total + length (wire x)) xs (l.append buf (wire x)) exs
                  (ground (arith, first_or_both buf x xs)) in
              (e, rw (ex.writes w l buf first, f))
          | inr short ↦ let (e, f) = ex.overflows w l buf short in (e, rw f)
        ]

  pub Emits-vec : (xs : List T) → EmitsAll xs → Emits (encode_vec encode xs) (wire_vec wire xs)
  unfolding encode_vec
  Emits-vec xs emits = record {
    writes = λ w l buf h. rw (writes_vec_loop w l 0 xs buf emits h, zero-add);
    overflows = λ w l buf h. overflows_vec_loop w l 0 xs buf emits h;
  }
