-- ===== src/Codec/Write.antt =====
-- codec/src/encode.rs, `WriteBuffer` and its two implementations, `Vec<u8>` and `&mut [u8]`.
pub mod Lawful
pub mod VecLaws
pub mod SliceLaws
use dersp.Prelude.{ℕ, ◌+◌, List, [], ◌++◌, ltb, length, take, drop, replicate, if◌then◌else◌}
use dersp.Exec.{Exec, Outcome, ok, err, panic, stuck, continue, pure}

pub data BufferOverflow : Type 0 where
  buffer_overflow : BufferOverflow

-- `std::convert::Infallible`: no value.
pub data Infallible : Type 0 where

-- The bytes that `later_fill` skipped and hands back as `&mut [u8]`.
pub record Region : Type 0 where
  pub start : ℕ
  pub len : ℕ

-- The callback of `later_fill` returns the number that the source's closure stores in `total`.
-- `slice_at` and `write_at` read and write through the `&mut [u8]` that `later_fill` returned.
pub record WriteBuffer : Type 1 where
  pub Buf : Type 0
  pub Error : Type 0
  pub fill_from : List ℕ → Exec Error Buf (Unit {0})
  pub later_fill : ℕ → Exec Error Buf ℕ → Exec Error Buf (Region × ℕ)
  pub slice_at : Region → Buf → List ℕ
  pub write_at : Region → List ℕ → Buf → Buf

-- The bytes from `start` on, replaced by `xs`.
unfoldable pub overwrite : ℕ → List ℕ → List ℕ → List ℕ
overwrite start xs buf = take start buf ++ (xs ++ drop (start + length xs) buf)

-- `impl WriteBuffer for Vec<u8>`
unfoldable pub vec_fill_from : List ℕ → Exec Infallible (List ℕ) (Unit {0})
vec_fill_from buffer v = pure tt (v ++ buffer)

unfoldable pub vec_later_fill :
    ℕ → Exec Infallible (List ℕ) ℕ → Exec Infallible (List ℕ) (Region × ℕ)
vec_later_fill len callback v =
    let (r, v') = callback (v ++ replicate len 0) in
    continue r (λ total. pure (record { start = length v; len = len }, total)) v'

abbrev pub vec_buffer : WriteBuffer
vec_buffer = record {
  Buf = List ℕ;
  Error = Infallible;
  fill_from = vec_fill_from;
  later_fill = vec_later_fill;
  slice_at = λ r v. take r.len (drop r.start v);
  write_at = λ r xs v. overwrite r.start xs v;
}

-- A view `&mut [u8]` into an array: `before` is written, `left` is what the view still covers, and
-- `after` is the part that a failed `later_fill` has dropped from the view.
pub record SliceView : Type 0 where
  pub before : List ℕ
  pub left : List ℕ
  pub after : List ℕ

-- The array that the view stands for.
abbrev pub array_of : SliceView → List ℕ
array_of v = v.before ++ (v.left ++ v.after)

abbrev pub view_of : List ℕ → SliceView
view_of xs = record { before = []; left = xs; after = [] }

-- `impl WriteBuffer for &mut [u8]`
unfoldable pub slice_fill_from : List ℕ → Exec BufferOverflow SliceView (Unit {0})
slice_fill_from buffer v =
    if ltb (length v.left) (length buffer)
    then (err buffer_overflow, v)
    else (ok tt, record v { before = v.before ++ buffer; left = drop (length buffer) v.left })

-- `mem::replace(self, &mut [])` empties the view, and only a successful callback restores it.
unfoldable pub slice_later_done :
    Region → Outcome BufferOverflow ℕ → SliceView → Outcome BufferOverflow (Region × ℕ) × SliceView
slice_later_done r (ok total) v = (ok (r, total), v)
slice_later_done r (err e) v = (err e, record v { left = []; after = v.left ++ v.after })
slice_later_done r panic v = (panic, record v { left = []; after = v.left ++ v.after })
slice_later_done r stuck v = (stuck, record v { left = []; after = v.left ++ v.after })

unfoldable pub slice_later_fill :
    ℕ → Exec BufferOverflow SliceView ℕ → Exec BufferOverflow SliceView (Region × ℕ)
unfolding slice_later_done
slice_later_fill len callback v =
    if ltb (length v.left) len
    then (err buffer_overflow, v)
    else (let (r, v') =
          callback (record v { before = v.before ++ take len v.left; left = drop len v.left }) in
        slice_later_done (record { start = length v.before; len = len }) r v')

abbrev pub slice_buffer : WriteBuffer
slice_buffer = record {
  Buf = SliceView;
  Error = BufferOverflow;
  fill_from = slice_fill_from;
  later_fill = slice_later_fill;
  slice_at = λ r v. take r.len (drop r.start v.before);
  write_at = λ r xs v. record v { before = overwrite r.start xs v.before };
}
