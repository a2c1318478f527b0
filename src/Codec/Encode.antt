-- ===== src/Codec/Encode.antt =====
-- codec/src/encode.rs: the implementations of `Encode`.
use dersp.Prelude.{
  ℕ, zero, suc, ◌+◌, ◌/◌, ◌%◌, ◌^◌, Option, none, some, List, [], ◌∷◌, length, ltb, if◌then◌else◌,
}
use dersp.Exec.{Exec, Outcome, ok, err, panic, stuck, pure, abort, lift, ◌>>=◌, ◌>>◌}
use dersp.Codec.Write.{WriteBuffer, Infallible, Region, slice_buffer, view_of, array_of}
use dersp.Codec.Types.{Opaque, SizeWrapper, Ignore}

-- One run of `encode`: the number of bytes written, in a buffer of any kind.
abbrev pub Encoding : Type 1
Encoding = (w : WriteBuffer) → Exec w.Error w.Buf ℕ

abbrev pub Encode : Type 0 → Type 1
Encode T = T → Encoding

-- `a.encode(write_buffer)? + b.encode(write_buffer)?`
infixl 40 ◌+?◌
unfoldable pub ◌+?◌ : Encoding → Encoding → Encoding
(a +? b) w = do n ← a w; m ← b w; pure (n + m)

-- `write_buffer.fill_from(bytes)?; Ok(n)`
unfoldable pub encode_bytes : List ℕ → ℕ → Encoding
encode_bytes bytes n w = do w.fill_from bytes; pure n

-- `to_be_bytes` of a number that is `k` bytes wide
unfoldable pub to_be_bytes : ℕ → ℕ → List ℕ
to_be_bytes zero n = []
to_be_bytes (suc k) n = (n / 256 ^ k % 256) ∷ to_be_bytes k n

unfoldable pub encode_u8 : Encode ℕ
encode_u8 x = encode_bytes (x ∷ []) 1

unfoldable pub encode_u16 : Encode ℕ
encode_u16 x = encode_bytes (to_be_bytes 2 x) 2

unfoldable pub encode_u32 : Encode ℕ
encode_u32 x = encode_bytes (to_be_bytes 4 x) 4

unfoldable pub encode_u64 : Encode ℕ
encode_u64 x = encode_bytes (to_be_bytes 8 x) 8

-- `impl Encode for ()`: nothing is written.
unfoldable pub encode_unit : Encoding
encode_unit w = pure 0

-- `impl Encode for [u8]`
unfoldable pub encode_slice : Encode (List ℕ)
encode_slice bytes = encode_bytes bytes (length bytes)

-- `impl Encode for [u8; SIZE]`
unfoldable pub encode_array : ℕ → Encode (List ℕ)
encode_array size bytes = encode_bytes bytes size

unfoldable pub encode_option : {T : Type 0} → Encode T → Encode (Option T)
unfolding encode_unit
encode_option encode none = encode_unit
encode_option encode (some value) = encode value

-- The loop over the elements, with the running `total`.
unfoldable pub encode_vec_loop : {T : Type 0} → Encode T → ℕ → Encode (List T)
encode_vec_loop encode total [] w = pure total
encode_vec_loop encode total (elem ∷ rest) w = do
  n ← encode elem w
  encode_vec_loop encode (total + n) rest w

unfoldable pub encode_vec : {T : Type 0} → Encode T → Encode (List T)
unfolding encode_vec_loop
encode_vec encode elems = encode_vec_loop encode 0 elems

unfoldable encode_pair : {A B : Type 0} → Encode A → Encode B → Encode (A × B)
unfolding ◌+?◌
encode_pair encode_a encode_b (a, b) = encode_a a +? encode_b b

unfoldable encode_ignore : Encode Ignore
encode_ignore x w = abort

unfoldable encode_infallible : Encode Infallible
encode_infallible x w = abort

-- The trait `DataSize`: a size type with the width of its encoding.
pub record DataSize : Type 1 where
  pub byte_size : ℕ
  pub try_from : ℕ → Option ℕ
  pub encode : Encode ℕ

-- `.unwrap()`
abbrev unwrap_option {ℓ} : {E : Type 0} {A : Type ℓ} → Option A → Outcome E A
unwrap_option none = panic
unwrap_option (some a) = ok a

unfoldable encode_opaque : DataSize → Encode Opaque
unfolding encode_vec encode_u8 ◌+?◌
encode_opaque size opaque =
    (λ w. do n ← lift (unwrap_option (size.try_from (length opaque.inner))); size.encode n w)
    +? encode_vec encode_u8 opaque.inner

-- `.unwrap()` of a result whose value is not used
abbrev pub unwrap_result : {E F A : Type 0} → Outcome E A → Outcome F (Unit {0})
unwrap_result (ok a) = ok tt
unwrap_result (err e) = panic
unwrap_result panic = panic
unwrap_result stuck = stuck

-- `.encode(size_buffer).unwrap()`: write into the skipped bytes, and panic if they are too few.
unfoldable pub fill_region : (w : WriteBuffer) → Encoding → Region → Exec w.Error w.Buf (Unit {0})
fill_region w encoding region buf =
    let (r, view) = encoding slice_buffer (view_of (w.slice_at region buf)) in
    (unwrap_result r, w.write_at region (array_of view) buf)

unfoldable pub encode_size_wrapper : {T : Type 0} → DataSize → Encode T → Encode (SizeWrapper T)
unfolding fill_region
encode_size_wrapper size encode wrapper w = do
  (region, total) ← w.later_fill size.byte_size (encode wrapper.inner w)
  n ← lift (unwrap_option (size.try_from total))
  fill_region w (size.encode n) region
  pure (total + size.byte_size)

-- `Size::try_from(n)` for an unsigned type of `bits` bits
abbrev try_from_usize : ℕ → ℕ → Option ℕ
try_from_usize bits n = if ltb n (2 ^ bits) then some n else none

-- `impl DataSize for u8 {}`, `u16` and `u32`: `BYTE_SIZE` is the size of the type.
abbrev pub u8_size : DataSize
u8_size = record { byte_size = 1; try_from = try_from_usize 8; encode = encode_u8 }

abbrev pub u16_size : DataSize
u16_size = record { byte_size = 2; try_from = try_from_usize 16; encode = encode_u16 }

abbrev pub u32_size : DataSize
u32_size = record { byte_size = 4; try_from = try_from_usize 32; encode = encode_u32 }
