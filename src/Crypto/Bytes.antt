-- ===== src/Crypto/Bytes.antt =====
-- Keys as bytes and their debugging output (dersp/src/crypto.rs: `PresharedKey`, the macro `gen_common`
-- and the conversions).
use dersp.Prelude.{
  ℕ, ◌-◌, ◌≡◌, ◌↔◌, refl, List, [], ◌∷◌, ◌++◌, length, take, drop, length-append, length-take,
  length-drop, arith, ◌==◌, ==_iff, leb, le→leb, if◌then◌else◌, Bool-cases, inl, inr,
}
use dersp.Exec.{Outcome, ok, err, panic}
use dersp.Crypto.Keys.{IsArray, key_size}
use dersp.Crypto.Secret.{SecretKey}
use dersp.Crypto.Text.{TextCodecs, IsTextCodecs}

-- `struct PresharedKey(pub [u8; KEY_SIZE])`
pub record PresharedKey : Type 0 where
  pub bytes : List ℕ

abbrev pub new_preshared_key : List ℕ → PresharedKey
new_preshared_key bytes = record { bytes = bytes }

-- `as_bytes` and `into_bytes`
abbrev pub as_bytes : SecretKey → List ℕ
as_bytes key = key.bytes

-- `From<crypto_box::SecretKey>`, from the bytes of the other type: they are not clamped again.
abbrev pub from_box : List ℕ → SecretKey
from_box bytes = record { bytes = bytes }

-- `TryFrom<&[u8]>` and `TryFrom<Vec<u8>>`, which gives the vector back; `wrap` is the constructor.
unfoldable pub try_from_vec : {K : Type 0} → (List ℕ → K) → List ℕ → Outcome (List ℕ) K
try_from_vec wrap v = if length v == key_size then ok (wrap v) else err v

-- `fmt` of `Debug`: a quote, the first four characters, three dots, the last four, a quote. The
-- subtraction panics below four.
unfoldable pub debug : TextCodecs → List ℕ → Outcome (Unit {0}) (List ℕ)
debug texts key =
    let buf = texts.base64_encode key in
    if leb 4 (length buf)
    then ok (34 ∷ (take 4 buf ++ (46 ∷ 46 ∷ 46 ∷ (drop (length buf - 4) buf ++ (34 ∷ [])))))
    else panic

-- Bytes become a key exactly if there are 32 of them.
pub try_from_vec_iff :
    {K : Type 0} (wrap : List ℕ → K) (v : List ℕ)
    → (try_from_vec wrap v ≡ ok (wrap v)) ↔ (length v ≡ 32)
unfolding try_from_vec
try_from_vec_iff wrap v = elim (Bool-cases (length v == 32)) [
  | inl same ↦ (λ _. (==_iff (length v) 32).0 same, λ _. rw same refl)
  | inr other ↦ (
    λ h. let wrong : err v ≡ ok (wrap v) = rw other at h in cc wrong,
    λ e. cc ((==_iff (length v) 32).1 e, other),
  )
]

-- The debugging output of a key has 13 characters, of which eight are the key's.
pub length-debug :
    (texts : TextCodecs) (laws : IsTextCodecs texts) (key : List ℕ)
    → IsArray 32 key
    → (text : List ℕ) × (debug texts key ≡ ok text) × (length text ≡ 13)
unfolding debug
length-debug texts laws key h =
    let buf = texts.base64_encode key in
    let long = laws.length-base64 key h in
    let tail : List ℕ = drop (length buf - 4) buf in
    (
      34 ∷ (take 4 buf ++ (46 ∷ 46 ∷ 46 ∷ (tail ++ (34 ∷ [])))),
      rw (le→leb 4 (length buf) (omega (arith, long))) refl,
      omega (
        arith,
        long,
        length-append (take 4 buf) (46 ∷ 46 ∷ 46 ∷ (tail ++ (34 ∷ []))),
        length-append tail (34 ∷ []),
        length-take 4 buf (omega (arith, long)),
        length-drop (length buf - 4) buf,
      ),
    )
