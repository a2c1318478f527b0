-- ===== src/Codec/Laws/Emits.antt =====
-- codec/src/encode.rs against its wire format: which bytes an encoding writes, in any buffer.
use dersp.Prelude.{
  ℕ, ◌≡◌, ap, ◌∙◌, true, false, ◌&&◌, Bool-cases, inl, inr, List, [], ◌++◌, length, length-append,
  arith,
}
use dersp.Exec.{ok}
use dersp.Codec.Write.{WriteBuffer}
use dersp.Codec.Write.Lawful.{Lawful, Fails}
use dersp.Codec.Encode.{Encoding, ◌+?◌, encode_bytes, encode_unit}

-- The encoding writes `xs` and returns their number if they fit, and fails otherwise.
pub record Emits (a : Encoding) (xs : List ℕ) : Type 1 where
  pub writes :
      (w : WriteBuffer) (l : Lawful w) (b : w.Buf)
      → l.fits b (length xs) ≡ true
      → a w b ≡ (ok (length xs), l.append b xs)
  pub overflows :
      (w : WriteBuffer) (l : Lawful w) (b : w.Buf) → l.fits b (length xs) ≡ false → Fails (a w b).0

pub Emits-bytes : (xs : List ℕ) (n : ℕ) → length xs ≡ n → Emits (encode_bytes xs n) xs
unfolding encode_bytes
Emits-bytes xs n e = record {
  writes = λ w l b h. rw (l.fill_fits b xs h, e);
  overflows = λ w l b h. let (x, f) = l.fill_overflows b xs h in (x, rw f);
}

pub Emits-unit : Emits encode_unit []
unfolding encode_unit
Emits-unit = record {
  writes = λ w l b h. rw (l.append_nil b);
  overflows = λ w l b h. cc (l.fits_zero b);
}

module _ {a b : Encoding} {xs ys : List ℕ} (ea : Emits a xs) (eb : Emits b ys) where
  module _ (w : WriteBuffer) (l : Lawful w) (buf : w.Buf) where
    both :
        l.fits buf (length (xs ++ ys))
        ≡ (l.fits buf (length xs) && l.fits (l.append buf xs) (length ys))
    both = ap (l.fits buf) (length-append xs ys) ∙ l.fits-add buf xs (length ys)

    writes_+? :
        l.fits buf (length (xs ++ ys)) ≡ true
        → (a +? b) w buf ≡ (ok (length (xs ++ ys)), l.append buf (xs ++ ys))
    unfolding ◌+?◌
    writes_+? h = rw (
      ea.writes w l buf (ground (arith, both)),
      eb.writes w l (l.append buf xs) (ground (arith, both)),
      l.append-append buf xs ys,
      length-append xs ys,
    )

    overflows_+? : l.fits buf (length (xs ++ ys)) ≡ false → Fails ((a +? b) w buf).0
    unfolding ◌+?◌
    overflows_+? h = elim (Bool-cases (l.fits buf (length xs))) [
      | inl first ↦
          let (e, f) = eb.overflows w l (l.append buf xs) (ground (arith, both)) in
          (e, rw (ea.writes w l buf first, f))
      | inr short ↦ let (e, f) = ea.overflows w l buf short in (e, rw f)
    ]

  pub Emits-+? : Emits (a +? b) (xs ++ ys)
  Emits-+? = record { writes = writes_+?; overflows = overflows_+? }
