-- ===== src/Crypto/Secret.antt =====
-- dersp/src/crypto.rs: the secret key, and `crypto_box` as the program calls it.
use dersp.Prelude.{ℕ, ◌+◌, ◌^◌, ◌<◌, ◌≡◌, Option, some, List, length}
use dersp.Crypto.Keys.{PublicKey, IsKey, IsArray}

-- `struct SecretKey([u8; KEY_SIZE])`
pub record SecretKey : Type 0 where
  pub bytes : List ℕ

-- What is called of the crate `crypto_box`: a secret key's public key, and the two directions of
-- `SalsaBox::new(their_key, our_key)` on a nonce and a text.
pub record Sealing : Type 0 where
  pub public_of : SecretKey → PublicKey
  pub encrypt : PublicKey → SecretKey → List ℕ → List ℕ → Option (List ℕ)
  pub decrypt : PublicKey → SecretKey → List ℕ → List ℕ → Option (List ℕ)

-- What its documentation promises: public keys have 32 bytes, a text that is not too long is
-- encrypted to 16 bytes more, and the two ends of a box agree.
pub record IsSealing (box : Sealing) : Type 0 where
  pub public_of-IsKey : (s : SecretKey) → IsKey (box.public_of s)
  pub seals :
      (k : PublicKey) (s : SecretKey) (nonce text : List ℕ)
      → length text < 2 ^ 32
      → (cipher : List ℕ) × (box.encrypt k s nonce text ≡ some cipher)
        × (length cipher ≡ length text + 16)
  pub opens :
      (s t : SecretKey) (nonce text cipher : List ℕ)
      → IsArray 24 nonce
      → box.encrypt (box.public_of s) t nonce text ≡ some cipher
      → box.decrypt (box.public_of t) s nonce cipher ≡ some text
