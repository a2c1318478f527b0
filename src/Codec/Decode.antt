-- ===== src/Codec/Decode.antt =====
-- codec/src/decode.rs: the implementations of `Decode`.
use dersp.Prelude.{
  ℕ, zero, suc, ◌+◌, ◌*◌, ◌%◌, ◌^◌, Option, none, some, List, [], ◌∷◌, ◌++◌, length, ltb,
  if◌then◌else◌,
}
use dersp.Exec.{Outcome, ok, err, panic, stuck, pure, raise, lift, continue, ◌>>=◌, ◌>>◌}
use dersp.Codec.Read.{Decode, DecodeError, decode_error, is_empty, fill_buf, fill_all}
use dersp.Codec.Write.{Infallible}
use dersp.Codec.Types.{Opaque, SizeWrapper, Ignore, ignore, opaque_from, wrap}

-- `buf[i]` of a buffer that `fill_buf` has filled; out of bounds it would be a panic.
abbrev index : List ℕ → ℕ → Outcome DecodeError ℕ
index [] i = panic
index (b ∷ bs) zero = ok b
index (b ∷ bs) (suc i) = index bs i

unfoldable pub decode_u8 : Decode ℕ
decode_u8 = do buf ← fill_buf 1; lift (index buf 0)

-- A byte widened to `bits` bits and shifted left by `k`.
abbrev shl : ℕ → ℕ → ℕ → ℕ
shl bits b k = b * 2 ^ k % 2 ^ bits

unfoldable pub decode_u16 : Decode ℕ
decode_u16 = do
  buf ← fill_buf 2
  b0 ← lift (index buf 0)
  b1 ← lift (index buf 1)
  pure ((shl 16 b0 8 + b1) % 2 ^ 16)

unfoldable pub decode_u32 : Decode ℕ
decode_u32 = do
  buf ← fill_buf 4
  b0 ← lift (index buf 0)
  b1 ← lift (index buf 1)
  b2 ← lift (index buf 2)
  b3 ← lift (index buf 3)
  pure ((shl 32 b0 24 + shl 32 b1 16 + shl 32 b2 8 + b3) % 2 ^ 32)

unfoldable decode_unit : Decode (Unit {0})
decode_unit = pure tt

unfoldable pub decode_option : {T : Type 0} → Decode T → Decode (Option T)
unfolding is_empty
decode_option decode s =
    if is_empty s then pure none s else (do value ← decode; pure (some value)) s

-- `while !read_buffer.is_empty()`. With as much fuel as there are bytes the loop ends if each
-- element takes at least one byte.
unfoldable pub decode_vec_loop : {T : Type 0} → ℕ → Decode T → List T → Decode (List T)
decode_vec_loop fuel decode vector [] = pure vector []
decode_vec_loop zero decode vector (b ∷ bs) = (stuck, b ∷ bs)
decode_vec_loop (suc fuel) decode vector (b ∷ bs) =
    (do elem ← decode; decode_vec_loop fuel decode (vector ++ (elem ∷ []))) (b ∷ bs)

unfoldable pub decode_vec : {T : Type 0} → Decode T → Decode (List T)
unfolding decode_vec_loop
decode_vec decode s = decode_vec_loop (length s) decode [] s

-- `TryInto<usize>`, where `usize` has 64 bits
unfoldable pub try_into_usize : ℕ → Outcome DecodeError ℕ
try_into_usize n = if ltb n (2 ^ 64) then ok n else err decode_error

unfoldable pub decode_opaque : Decode ℕ → Decode Opaque
decode_opaque decode_size = do len ← decode_size; bytes ← fill_buf len; pure (opaque_from bytes)

-- `T::decode(left)` on the slice `left`: its value with the bytes that it leaves of the slice.
unfoldable pub decode_within : {T : Type 0} → Decode T → List ℕ → Decode (T × List ℕ)
decode_within decode left s =
    let (r, left') = decode left in continue r (λ value. pure (value, left')) s

unfoldable pub decode_size_wrapper : {T : Type 0} → Decode ℕ → Decode T → Decode (SizeWrapper T)
unfolding try_into_usize decode_within is_empty
decode_size_wrapper decode_size decode = do
  n ← decode_size
  size ← lift (try_into_usize n)
  left ← fill_buf size
  (value, left') ← decode_within decode left
  if is_empty left' then pure (wrap value) else raise decode_error

unfoldable pub decode_array : ℕ → Decode (List ℕ)
decode_array size = fill_buf size

unfoldable pub decode_ignore : Decode Ignore
unfolding fill_all
decode_ignore = do fill_all; pure ignore

unfoldable decode_infallible : Decode Infallible
decode_infallible = raise decode_error
