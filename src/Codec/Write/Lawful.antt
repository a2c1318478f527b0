-- ===== src/Codec/Write/Lawful.antt =====
-- What the encoders rely on in a write buffer, as an interface: a buffer takes bytes while they
-- fit, and `later_fill` leaves a hole that is written afterwards. Both implementations have it.
use dersp.Prelude.{
  ℕ, ◌+◌, ◌≡◌, Bool, true, false, ◌&&◌, List, [], ◌++◌, length, take, drop, take-append,
  drop-append, drop-drop,
}
use dersp.Exec.{Exec, Outcome, ok, err}
use dersp.Codec.Write.{WriteBuffer, Region, overwrite}

-- The run ends in an error.
abbrev pub Fails : {E A : Type 0} → Outcome E A → Type 0
Fails {E} r = (e : E) × (r ≡ err e)

pub record Lawful (w : WriteBuffer) : Type 0 where
  pub fits : w.Buf → ℕ → Bool
  pub append : w.Buf → List ℕ → w.Buf
  pub hole : w.Buf → ℕ → List ℕ
  pub region : w.Buf → ℕ → Region
  pub fits_zero : (b : w.Buf) → fits b 0 ≡ true
  pub fits-add :
      (b : w.Buf) (xs : List ℕ) (n : ℕ)
      → fits b (length xs + n) ≡ (fits b (length xs) && fits (append b xs) n)
  pub append_nil : (b : w.Buf) → append b [] ≡ b
  pub append-append : (b : w.Buf) (xs ys : List ℕ) → append (append b xs) ys ≡ append b (xs ++ ys)
  pub length-hole : (b : w.Buf) (n : ℕ) → fits b n ≡ true → length (hole b n) ≡ n
  pub fill_fits :
      (b : w.Buf) (xs : List ℕ)
      → fits b (length xs) ≡ true
      → w.fill_from xs b ≡ (ok tt, append b xs)
  pub fill_overflows :
      (b : w.Buf) (xs : List ℕ) → fits b (length xs) ≡ false → Fails (w.fill_from xs b).0
  pub later_fits :
      (b : w.Buf) (n : ℕ) (callback : Exec w.Error w.Buf ℕ) (ys : List ℕ) (t : ℕ)
      → fits b n ≡ true
      → callback (append b (hole b n)) ≡ (ok t, append b (hole b n ++ ys))
      → w.later_fill n callback b ≡ (ok (region b n, t), append b (hole b n ++ ys))
  pub later_fails :
      (b : w.Buf) (n : ℕ) (callback : Exec w.Error w.Buf ℕ)
      → fits b n ≡ true
      → Fails (callback (append b (hole b n))).0
      → Fails (w.later_fill n callback b).0
  pub later_overflows :
      (b : w.Buf) (n : ℕ) (callback : Exec w.Error w.Buf ℕ)
      → fits b n ≡ false
      → Fails (w.later_fill n callback b).0
  pub slice_at_hole :
      (b : w.Buf) (n : ℕ) (ys : List ℕ)
      → fits b n ≡ true
      → w.slice_at (region b n) (append b (hole b n ++ ys)) ≡ hole b n
  pub write_at_hole :
      (b : w.Buf) (n : ℕ) (xs ys : List ℕ)
      → fits b n ≡ true
      → length xs ≡ n
      → w.write_at (region b n) xs (append b (hole b n ++ ys)) ≡ append b (xs ++ ys)

-- Reading and replacing the middle of `front ++ (mid ++ back)`.
pub read_middle :
    (front mid back : List ℕ) (n : ℕ)
    → length mid ≡ n
    → take n (drop (length front) (front ++ (mid ++ back))) ≡ mid
read_middle front mid back n e = rw (drop-append, ← e, take-append)

pub overwrite_middle :
    (front mid back xs : List ℕ)
    → length xs ≡ length mid
    → overwrite (length front) xs (front ++ (mid ++ back)) ≡ front ++ (xs ++ back)
unfolding overwrite
overwrite_middle front mid back xs e =
    rw (take-append, e, ← drop-drop (length front) (length mid) _, drop-append, drop-append)
