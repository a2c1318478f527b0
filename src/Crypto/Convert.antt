-- ===== src/Crypto/Convert.antt =====
-- The conversions of dersp/src/crypto.rs: between its keys and those of `crypto_box`, and between
-- keys and slices.
use dersp.Prelude.{ℕ, ◌≡◌, refl, ap, List, length, ◌==◌, if◌then◌else◌}
use dersp.Exec.{Outcome, ok, err}
use dersp.Crypto.Keys.{PublicKey, IsKey, IsArray, key_size}
use dersp.Crypto.Secret.{SecretKey}
use dersp.Crypto.Bytes.{from_box}

-- The keys of `crypto_box`: made of arrays of 32 bytes, read as such, and the public key of a secret
-- one.
pub record BoxKeys : Type 1 where
  pub Secret : Type 0
  pub Public : Type 0
  pub secret_from : List ℕ → Secret
  pub secret_bytes : Secret → List ℕ
  pub public_from : List ℕ → Public
  pub public_bytes : Public → List ℕ
  pub public_key : Secret → Public

-- What its documentation promises: a key is its 32 bytes.
pub record IsBoxKeys (box : BoxKeys) : Type 0 where
  pub secret-from : (k : box.Secret) → box.secret_from (box.secret_bytes k) ≡ k
  pub secret-bytes : (xs : List ℕ) → IsArray 32 xs → box.secret_bytes (box.secret_from xs) ≡ xs
  pub public-bytes : (xs : List ℕ) → IsArray 32 xs → box.public_bytes (box.public_from xs) ≡ xs
  pub in_range : (k : box.Public) → IsArray 32 (box.public_bytes k)

-- `deref` and `as_ref`, and what a change through `deref_mut` leaves.
abbrev deref : PublicKey → List ℕ
deref key = key.bytes

abbrev as_ref : PublicKey → List ℕ
as_ref key = key.bytes

abbrev deref_mut : (List ℕ → List ℕ) → PublicKey → PublicKey
deref_mut change key = record { bytes = change key.bytes }

-- `TryFrom<&[u8]>`; `wrap` is the constructor.
unfoldable pub try_from_slice : {K : Type 0} → (List ℕ → K) → List ℕ → Outcome (Unit {0}) K
try_from_slice wrap slice = if length slice == key_size then ok (wrap slice) else err tt

module _ (box : BoxKeys) where
  -- `From<SecretKey> for crypto_box::SecretKey`, also by reference
  abbrev to_box : SecretKey → box.Secret
  to_box sk = box.secret_from sk.bytes

  -- `From<crypto_box::PublicKey> for PublicKey`, also by reference
  abbrev from_box_public : box.Public → PublicKey
  from_box_public pk = record { bytes = box.public_bytes pk }

  -- `From<PublicKey> for crypto_box::PublicKey`, also by reference
  abbrev to_box_public : PublicKey → box.Public
  to_box_public pk = box.public_from pk.bytes

  -- `SecretKey::public`
  unfoldable pub public : SecretKey → PublicKey
  public sk = from_box_public (box.public_key (box.secret_from sk.bytes))

  -- `From<&SecretKey> for PublicKey`
  abbrev public_from_secret : SecretKey → PublicKey
  public_from_secret sk = public sk

  -- `From<&[u8; KEY_SIZE]> for PublicKey`
  abbrev public_from_array : List ℕ → PublicKey
  public_from_array pk = record { bytes = pk }

  module _ (laws : IsBoxKeys box) where
    -- Keys of 32 bytes go to `crypto_box`, or to a slice, and back unchanged; a secret key that is
    -- taken from `crypto_box` has the public key that `crypto_box` says; and public keys have 32 bytes.
    pub box_keys_round_trip :
        (sk : SecretKey) (pk : PublicKey) (bs : box.Secret)
        → IsArray 32 sk.bytes
        → IsKey pk
        → (from_box (box.secret_bytes (to_box sk)) ≡ sk)
          × (from_box_public (to_box_public pk) ≡ pk)
          × (try_from_slice (λ xs. record { bytes = xs }) (deref pk) ≡ ok pk)
          × (public (from_box (box.secret_bytes bs)) ≡ from_box_public (box.public_key bs))
          × IsKey (public sk)
    unfolding public try_from_slice
    box_keys_round_trip sk pk bs hs hp = (
      ap from_box (laws.secret-bytes sk.bytes hs),
      ap (λ xs. record { bytes = xs }) (laws.public-bytes pk.bytes hp),
      rw hp.size refl,
      ap (λ k. from_box_public (box.public_key k)) (laws.secret-from bs),
      laws.in_range (box.public_key (box.secret_from sk.bytes)),
    )
