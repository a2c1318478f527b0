-- ===== src/Codec/Read.antt =====
-- codec/src/decode.rs, `ReadBuffer`: the slice `&[u8]` is its one implementation, so a decoder is
-- an action on the bytes that are left.
use dersp.Prelude.{ℕ, Bool, true, false, List, [], ◌∷◌, ltb, length, take, drop, if◌then◌else◌}
use dersp.Exec.{Exec, pure, raise}

pub data DecodeError : Type 0 where
  decode_error : DecodeError

abbrev pub Decode : Type 0 → Type 0
Decode T = Exec DecodeError (List ℕ) T

-- `<[u8]>::is_empty(self)`
unfoldable pub is_empty : List ℕ → Bool
is_empty [] = true
is_empty (b ∷ bs) = false

-- A short slice is an error and stays as it is; else the first `size` bytes are taken off.
unfoldable pub fill_buf : ℕ → Decode (List ℕ)
fill_buf size s =
    if ltb (length s) size then raise decode_error s else pure (take size s) (drop size s)

-- `mem::replace(self, &[])`
unfoldable pub fill_all : Decode (List ℕ)
fill_all s = pure s []
