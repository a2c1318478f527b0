-- ===== src/Crypto/Keys.antt =====
-- dersp/src/crypto.rs: the key types and their derived codecs.
use dersp.Prelude.{ℕ, ◌≡◌, List, length, All, ◌<◌, bytes_eq, Bool}
use dersp.Exec.{pure, ◌>>=◌}
use dersp.Codec.Read.{Decode}
use dersp.Codec.Encode.{Encode, ◌+?◌, encode_unit, encode_array}
use dersp.Codec.Decode.{decode_array}

abbrev pub key_size : ℕ
key_size = 32

-- `struct PublicKey(pub [u8; KEY_SIZE])`
pub record PublicKey : Type 0 where
  pub bytes : List ℕ

-- An array of `n` bytes.
pub record IsArray (n : ℕ) (xs : List ℕ) : Type 0 where
  pub size : length xs ≡ n
  pub in_range : All (λ b. b < 256) xs

abbrev pub IsKey : PublicKey → Type 0
IsKey k = IsArray key_size k.bytes

-- The derived `PartialEq`.
unfoldable pub key_eq : PublicKey → PublicKey → Bool
unfolding bytes_eq
key_eq a b = bytes_eq a.bytes b.bytes

-- `#[derive(Encode, Decode)]` on a struct with one unnamed field.
unfoldable pub encode_public_key : Encode PublicKey
encode_public_key k = encode_unit +? encode_array key_size k.bytes

unfoldable pub decode_public_key : Decode PublicKey
decode_public_key = do bytes ← decode_array key_size; pure (record { bytes = bytes })
