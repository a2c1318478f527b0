-- ===== src/Codec/Write/VecLaws.antt =====
-- `Vec<u8>` (codec/src/encode.rs) as a lawful write buffer: everything fits.
use dersp.Prelude.{
  ℕ, ◌≡◌, refl, sym, ◌∙◌, true, false, List, ◌++◌, append-nil, append_assoc, length, replicate,
  length-replicate,
}
use dersp.Exec.{Exec, ok}
use dersp.Codec.Write.{Infallible, vec_buffer, vec_fill_from, vec_later_fill}
use dersp.Codec.Write.Lawful.{Lawful, read_middle, overwrite_middle}

pub vec_fill_fits : (b xs : List ℕ) → vec_fill_from xs b ≡ (ok tt, b ++ xs)
unfolding vec_fill_from
vec_fill_fits b xs = refl

pub vec_later_fits :
    (b : List ℕ) (n : ℕ) (callback : Exec Infallible (List ℕ) ℕ) (ys : List ℕ) (t : ℕ)
    → callback (b ++ replicate n 0) ≡ (ok t, b ++ (replicate n 0 ++ ys))
    → vec_later_fill n callback b
      ≡ (ok (record { start = length b; len = n }, t), b ++ (replicate n 0 ++ ys))
unfolding vec_later_fill
vec_later_fits b n callback ys t e = rw e

pub vec_never_full : {A : Type 0} → true ≡ false → A
vec_never_full h = cc

abbrev pub vec_lawful : Lawful vec_buffer
vec_lawful = record {
  fits = λ b n. true;
  append = λ b xs. b ++ xs;
  hole = λ b n. replicate n 0;
  region = λ b n. record { start = length b; len = n };
  fits_zero = λ b. refl;
  fits-add = λ b xs n. refl;
  append_nil = append-nil;
  append-append = λ b xs ys. append_assoc b xs ys;
  length-hole = λ b n h. length-replicate n 0;
  fill_fits = λ b xs h. vec_fill_fits b xs;
  fill_overflows = λ b xs h. vec_never_full h;
  later_fits = λ b n callback ys t h e. vec_later_fits b n callback ys t e;
  later_fails = λ b n callback h f. elim f.0 [ ];
  later_overflows = λ b n callback h. vec_never_full h;
  slice_at_hole = λ b n ys h. read_middle b (replicate n 0) ys n (length-replicate n 0);
  write_at_hole =
      λ b n xs ys h e. overwrite_middle b (replicate n 0) ys xs (e ∙ sym (length-replicate n 0));
}
