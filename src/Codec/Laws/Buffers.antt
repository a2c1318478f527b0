-- ===== src/Codec/Laws/Buffers.antt =====
-- The two write buffers of codec/src/encode.rs side by side: a fixed slice and a vector.
use dersp.Prelude.{ℕ, ◌≤◌, ◌<◌, ◌≡◌, refl, ap, ◌∙◌, List, [], length, drop, le→leb, lt→leb_false}
use dersp.Exec.{ok, err}
use dersp.Codec.Write.{vec_buffer, slice_buffer, view_of, buffer_overflow, BufferOverflow}
use dersp.Codec.Write.VecLaws.{vec_lawful}
use dersp.Codec.Write.SliceLaws.{slice_lawful}
use dersp.Codec.Encode.{Encoding}
use dersp.Codec.Laws.Emits.{Emits}

module _ (a : Encoding) (xs array : List ℕ) (e : Emits a xs) where
  vec_run : a vec_buffer [] ≡ (ok (length xs), xs)
  vec_run = e.writes vec_buffer vec_lawful [] refl

  -- For an encoding that emits known bytes: into an array that is long enough it writes the bytes
  -- that it appends to an empty vector, returns their number, and leaves the rest of the array in
  -- the view.
  pub slice-eq-vec :
      length xs ≤ length array
      → a slice_buffer (view_of array) ≡ (
        ok (length (a vec_buffer []).1),
        record {
          before = (a vec_buffer []).1;
          left = drop (length (a vec_buffer []).1) array;
          after = [];
        },
      )
  slice-eq-vec h = rw vec_run (e.writes slice_buffer slice_lawful (view_of array) (le→leb _ _ h))

  -- For an encoding that emits known bytes: into an array that is shorter than what it appends to
  -- an empty vector it fails with BufferOverflow.
  pub slice-overflows :
      length array < length (a vec_buffer []).1
      → (a slice_buffer (view_of array)).0 ≡ err buffer_overflow
  slice-overflows h =
      let (x, f) =
        e.overflows slice_buffer slice_lawful (view_of array)
          (lt→leb_false _ _ (rw vec_run at h)) in
      f ∙ ap err (only x)
    where
      only : (x : BufferOverflow) → x ≡ buffer_overflow
      only buffer_overflow = refl
