-- ===== src/Crypto/Text.antt =====
-- Keys as text: `FromStr`, `Display` and `LowerHex` of dersp/src/crypto.rs. A string is the list of
-- its bytes.
use dersp.Prelude.{
  ℕ, ◌≡◌, ap, ◌∙◌, true, false, Option, none, some, List, length, arith, ◌==◌, if◌then◌else◌,
}
use dersp.Exec.{Outcome, ok, err}
use dersp.Crypto.Keys.{PublicKey, IsArray, IsKey}
use dersp.Crypto.Clamp.{new_secret_key, new_secret_key-IsClamped}

-- `enum KeyDecodeError`; what the crates `base64` and `hex` report is left out.
pub data KeyDecodeError : Type 0 where
  invalid_length : ℕ → KeyDecodeError
  base64 : KeyDecodeError
  hex : KeyDecodeError

-- What is called of the crates `hex` and `base64`: encoding bytes, and decoding into an array of 32.
pub record TextCodecs : Type 0 where
  pub hex_encode : List ℕ → List ℕ
  pub hex_decode : List ℕ → Option (List ℕ)
  pub base64_encode : List ℕ → List ℕ
  pub base64_decode : List ℕ → Option (List ℕ)

-- What their documentation promises for 32 bytes.
pub record IsTextCodecs (texts : TextCodecs) : Type 0 where
  pub length-hex : (bytes : List ℕ) → IsArray 32 bytes → length (texts.hex_encode bytes) ≡ 64
  pub length-base64 : (bytes : List ℕ) → IsArray 32 bytes → length (texts.base64_encode bytes) ≡ 44
  pub hex_decodes :
      (bytes : List ℕ) → IsArray 32 bytes → texts.hex_decode (texts.hex_encode bytes) ≡ some bytes
  pub base64_decodes :
      (bytes : List ℕ)
      → IsArray 32 bytes
      → texts.base64_decode (texts.base64_encode bytes) ≡ some bytes

-- `Ok(Self::new(key))` with the array that was decoded, or the decoder's error.
unfoldable decoded :
    {K : Type 0} → (List ℕ → K) → KeyDecodeError → Option (List ℕ) → Outcome KeyDecodeError K
decoded new e (some key) = ok (new key)
decoded new e none = err e

-- `from_str`, for the type whose `new` is given.
unfoldable pub from_str :
    {K : Type 0} → TextCodecs → (List ℕ → K) → List ℕ → Outcome KeyDecodeError K
unfolding decoded
from_str texts new s =
    if length s == 64
    then decoded new hex (texts.hex_decode s)
    else if length s == 44
    then decoded new base64 (texts.base64_decode s)
    else err (invalid_length (length s))

-- `fmt` of `Display` and of `LowerHex`. The digits of both are ASCII, so `from_utf8` does not fail.
unfoldable pub display : TextCodecs → List ℕ → List ℕ
display texts key = texts.base64_encode key

unfoldable pub lower_hex : TextCodecs → List ℕ → List ℕ
lower_hex texts key = texts.hex_encode key

-- `PublicKey::new`
abbrev pub new_public_key : List ℕ → PublicKey
new_public_key bytes = record { bytes = bytes }

module _ {K : Type 0} (texts : TextCodecs) (laws : IsTextCodecs texts) (new : List ℕ → K) where
  from_str-display :
      (bytes : List ℕ)
      → IsArray 32 bytes
      → from_str texts new (display texts bytes) ≡ ok (new bytes)
  unfolding from_str display decoded
  from_str-display bytes h =
      let long : (length (texts.base64_encode bytes) == 64) ≡ false =
        ground (arith, laws.length-base64 bytes h) in
      let right : (length (texts.base64_encode bytes) == 44) ≡ true =
        ground (arith, laws.length-base64 bytes h) in
      rw (long, right, laws.base64_decodes bytes h)

  from_str-lower_hex :
      (bytes : List ℕ)
      → IsArray 32 bytes
      → from_str texts new (lower_hex texts bytes) ≡ ok (new bytes)
  unfolding from_str lower_hex decoded
  from_str-lower_hex bytes h =
      let right : (length (texts.hex_encode bytes) == 64) ≡ true =
        ground (arith, laws.length-hex bytes h) in
      rw (right, laws.hex_decodes bytes h)

-- A public key of 32 bytes is read back from its text in either form, with hexadecimal and base64
-- codecs that decode what they encode.
pub public_key_round_trip :
    (texts : TextCodecs) (laws : IsTextCodecs texts) (k : PublicKey)
    → IsKey k
    → (from_str texts new_public_key (display texts k.bytes) ≡ ok k)
      × (from_str texts new_public_key (lower_hex texts k.bytes) ≡ ok k)
public_key_round_trip texts laws k h = (
  from_str-display texts laws new_public_key k.bytes h,
  from_str-lower_hex texts laws new_public_key k.bytes h,
)

-- With hexadecimal and base64 codecs that decode what they encode, a secret key made of any 32
-- bytes is read back from its text in either form.
pub secret_key_round_trip :
    (texts : TextCodecs) (laws : IsTextCodecs texts) (bytes : List ℕ)
    → IsArray 32 bytes
    → (from_str texts new_secret_key (display texts (new_secret_key bytes).bytes)
        ≡ ok (new_secret_key bytes))
      × (from_str texts new_secret_key (lower_hex texts (new_secret_key bytes).bytes)
          ≡ ok (new_secret_key bytes))
secret_key_round_trip texts laws bytes h =
    let (clamped, _, twice) = new_secret_key-IsClamped bytes h in
    (
      from_str-display texts laws new_secret_key (new_secret_key bytes).bytes clamped.array
          ∙ ap ok twice,
      from_str-lower_hex texts laws new_secret_key (new_secret_key bytes).bytes clamped.array
          ∙ ap ok twice,
    )
