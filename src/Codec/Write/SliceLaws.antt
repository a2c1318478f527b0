-- ===== src/Codec/Write/SliceLaws.antt =====
-- `&mut [u8]` (codec/src/encode.rs) as a lawful write buffer: what fits is what the view covers.
use dersp.Prelude.{
  ℕ, ◌+◌, ◌≡◌, sym, ◌∙◌, Bool, true, false, ◌&&◌, List, ◌++◌, append-nil, append_assoc, leb, ltb,
  length, take, drop, length-append, length-drop, length-take, drop-drop, leb→le, arith,
}
use dersp.Exec.{Exec, ok, err}
use dersp.Codec.Write.{
  BufferOverflow, buffer_overflow, SliceView, slice_buffer, overwrite, slice_fill_from,
  slice_later_done, slice_later_fill,
}
use dersp.Codec.Write.Lawful.{Lawful, Fails, read_middle, overwrite_middle}

abbrev pub slice_fits : SliceView → ℕ → Bool
slice_fits v n = leb n (length v.left)

abbrev pub slice_append : SliceView → List ℕ → SliceView
slice_append v xs = record v { before = v.before ++ xs; left = drop (length xs) v.left }

abbrev pub slice_hole : SliceView → ℕ → List ℕ
slice_hole v n = take n v.left

pub slice_fits_zero : (v : SliceView) → slice_fits v 0 ≡ true
slice_fits_zero v = ground arith

pub slice_fits-add :
    (v : SliceView) (xs : List ℕ) (n : ℕ)
    → slice_fits v (length xs + n) ≡ (slice_fits v (length xs) && slice_fits (slice_append v xs) n)
slice_fits-add v xs n = ground (arith, length-drop (length xs) v.left)

pub slice_append-append :
    (v : SliceView) (xs ys : List ℕ)
    → slice_append (slice_append v xs) ys ≡ slice_append v (xs ++ ys)
slice_append-append v xs ys =
    rw (append_assoc v.before xs ys, drop-drop (length xs) (length ys) v.left, length-append xs ys)

pub slice_length-hole :
    (v : SliceView) (n : ℕ) → slice_fits v n ≡ true → length (slice_hole v n) ≡ n
slice_length-hole v n h = length-take n v.left (leb→le n _ h)

pub slice_fill_fits :
    (v : SliceView) (xs : List ℕ)
    → slice_fits v (length xs) ≡ true
    → slice_fill_from xs v ≡ (ok tt, slice_append v xs)
unfolding slice_fill_from
slice_fill_fits v xs h = ground arith

pub slice_fill_overflows :
    (v : SliceView) (xs : List ℕ)
    → slice_fits v (length xs) ≡ false
    → Fails (slice_fill_from xs v).0
unfolding slice_fill_from
slice_fill_overflows v xs h = (buffer_overflow, ground arith)

module _ (v : SliceView) (n : ℕ) where
  abbrev entered : SliceView
  entered = record v { before = v.before ++ take n v.left; left = drop n v.left }

  entered_lem : slice_fits v n ≡ true → entered ≡ slice_append v (slice_hole v n)
  entered_lem h = rw (slice_length-hole v n h)

  not_short : slice_fits v n ≡ true → ltb (length v.left) n ≡ false
  not_short h = ground arith

  pub slice_later_fits :
      (callback : Exec BufferOverflow SliceView ℕ) (ys : List ℕ) (t : ℕ)
      → slice_fits v n ≡ true
      → callback (slice_append v (slice_hole v n)) ≡ (ok t, slice_append v (slice_hole v n ++ ys))
      → slice_later_fill n callback v ≡ (
        ok (record { start = length v.before; len = n }, t),
        slice_append v (slice_hole v n ++ ys),
      )
  unfolding slice_later_fill
  slice_later_fits callback ys t h e =
      let done : callback entered ≡ (ok t, slice_append v (slice_hole v n ++ ys)) =
        rw (entered_lem h) e in
      rw (not_short h, done)

  pub slice_later-Fails :
      (callback : Exec BufferOverflow SliceView ℕ)
      → slice_fits v n ≡ true
      → Fails (callback (slice_append v (slice_hole v n))).0
      → Fails (slice_later_fill n callback v).0
  unfolding slice_later_fill
  slice_later-Fails callback h f =
      let failed : (callback entered).0 ≡ err f.0 = rw (entered_lem h) f.1 in
      (f.0, rw (not_short h, failed, slice_later_done))

  pub slice_later_overflows :
      (callback : Exec BufferOverflow SliceView ℕ)
      → slice_fits v n ≡ false
      → Fails (slice_later_fill n callback v).0
  unfolding slice_later_fill
  slice_later_overflows callback h = (buffer_overflow, ground arith)

  pub slice_slice_at :
      (ys : List ℕ)
      → slice_fits v n ≡ true
      → take n (drop (length v.before) (v.before ++ (slice_hole v n ++ ys))) ≡ slice_hole v n
  slice_slice_at ys h = read_middle v.before (slice_hole v n) ys n (slice_length-hole v n h)

  pub slice_write_at :
      (xs ys : List ℕ)
      → slice_fits v n ≡ true
      → length xs ≡ n
      → record (slice_append v (slice_hole v n ++ ys)) {
        before = overwrite (length v.before) xs (v.before ++ (slice_hole v n ++ ys));
      }
        ≡ slice_append v (xs ++ ys)
  slice_write_at xs ys h e =
      let same : length xs ≡ length (slice_hole v n) = e ∙ sym (slice_length-hole v n h) in
      rw (
        overwrite_middle v.before (slice_hole v n) ys xs same,
        length-append (slice_hole v n) ys,
        length-append xs ys,
        same,
      )

abbrev pub slice_lawful : Lawful slice_buffer
slice_lawful = record {
  fits = slice_fits;
  append = slice_append;
  hole = slice_hole;
  region = λ v n. record { start = length v.before; len = n };
  fits_zero = slice_fits_zero;
  fits-add = slice_fits-add;
  append_nil = λ v. rw (append-nil v.before);
  append-append = slice_append-append;
  length-hole = slice_length-hole;
  fill_fits = slice_fill_fits;
  fill_overflows = slice_fill_overflows;
  later_fits = λ v n callback ys t h e. slice_later_fits v n callback ys t h e;
  later_fails = λ v n callback h f. slice_later-Fails v n callback h f;
  later_overflows = λ v n callback h. slice_later_overflows v n callback h;
  slice_at_hole = λ v n ys h. slice_slice_at v n ys h;
  write_at_hole = λ v n xs ys h e. slice_write_at v n xs ys h e;
}
