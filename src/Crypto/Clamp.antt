-- ===== src/Crypto/Clamp.antt =====
-- `SecretKey::new` and `SecretKey::gen_with` of dersp/src/crypto.rs.
use dersp.Prelude.{
  ℕ, zero, suc, ◌+◌, ◌-◌, ◌%◌, ◌≤◌, ◌<◌, ◌≡◌, refl, ap, List, [], ◌∷◌, length, take, drop, All,
  arith, ltb, if◌then◌else◌,
}
use dersp.Crypto.Keys.{IsArray}
use dersp.Crypto.Secret.{SecretKey}

-- `bytes[i] = f(bytes[i])`, and `first_mut` and `last_mut`, which change nothing in an empty slice.
abbrev modify : (ℕ → ℕ) → ℕ → List ℕ → List ℕ
modify f i [] = []
modify f zero (b ∷ bs) = f b ∷ bs
modify f (suc i) (b ∷ bs) = b ∷ modify f i bs

abbrev modify_first : (ℕ → ℕ) → List ℕ → List ℕ
modify_first f [] = []
modify_first f (b ∷ bs) = f b ∷ bs

abbrev modify_last : (ℕ → ℕ) → List ℕ → List ℕ
modify_last f [] = []
modify_last f (b ∷ []) = f b ∷ []
modify_last f (b ∷ c ∷ bs) = b ∷ modify_last f (c ∷ bs)

-- `b & 248`, `b & 127` and `b | 64` on a byte.
unfoldable and_248 : ℕ → ℕ
and_248 b = b - b % 8

unfoldable and_127 : ℕ → ℕ
and_127 b = b % 128

unfoldable or_64 : ℕ → ℕ
or_64 b = if ltb (b % 128) 64 then b + 64 else b

-- `SecretKey::new`
unfoldable pub new_secret_key : List ℕ → SecretKey
unfolding and_248 and_127 or_64
new_secret_key bytes = record {
  bytes = modify or_64 31 (modify and_127 31 (modify and_248 0 bytes));
}

-- `SecretKey::gen_with`, with the bytes that the generator fills in.
unfoldable pub gen_with : List ℕ → SecretKey
unfolding and_248 and_127 or_64
gen_with random = record {
  bytes = modify_last (λ b. or_64 (and_127 b)) (modify_first and_248 random);
}

-- The byte at an index, 0 where there is none.
abbrev byte_at : ℕ → List ℕ → ℕ
byte_at i [] = 0
byte_at zero (b ∷ bs) = b
byte_at (suc i) (b ∷ bs) = byte_at i bs

-- A key as X25519 wants it.
pub record IsClamped (k : SecretKey) : Type 0 where
  pub array : IsArray 32 k.bytes
  pub low_bits : byte_at 0 k.bytes % 8 ≡ 0
  pub top_bits : (64 ≤ byte_at 31 k.bytes) × (byte_at 31 k.bytes < 128)

-- What happens to the last byte.
abbrev set_top : ℕ → List ℕ → List ℕ
set_top i xs = modify or_64 i (modify and_127 i xs)

set_top_byte : (b : ℕ) → (64 ≤ or_64 (and_127 b)) × (or_64 (and_127 b) < 128)
unfolding or_64 and_127
set_top_byte b = ground arith

set_top_twice : (b : ℕ) → or_64 (and_127 (or_64 (and_127 b))) ≡ or_64 (and_127 b)
unfolding or_64 and_127
set_top_twice b = ground arith

set_top-set_top : (i : ℕ) (xs : List ℕ) → set_top i (set_top i xs) ≡ set_top i xs
set_top-set_top i [] = refl
set_top-set_top zero (b ∷ bs) = ap (λ c. c ∷ bs) (set_top_twice b)
set_top-set_top (suc i) (b ∷ bs) = ap (λ cs. b ∷ cs) (set_top-set_top i bs)

length-set_top : (i : ℕ) (xs : List ℕ) → length (set_top i xs) ≡ length xs
length-set_top i [] = refl
length-set_top zero (b ∷ bs) = refl
length-set_top (suc i) (b ∷ bs) = ap suc (length-set_top i bs)

All-set_top : (i : ℕ) (xs : List ℕ) → All (λ b. b < 256) xs → All (λ b. b < 256) (set_top i xs)
All-set_top i [] h = h
All-set_top zero (b ∷ bs) (now, later) = (omega (arith, (set_top_byte b).1), later)
All-set_top (suc i) (b ∷ bs) (now, later) = (now, All-set_top i bs later)

byte_at-set_top :
    (i : ℕ) (xs : List ℕ)
    → i < length xs
    → (64 ≤ byte_at i (set_top i xs)) × (byte_at i (set_top i xs) < 128)
byte_at-set_top i [] h = elim h [ ]
byte_at-set_top zero (b ∷ bs) h = set_top_byte b
byte_at-set_top (suc i) (b ∷ bs) h = byte_at-set_top i bs (omega (arith, h))

take-set_top : (i : ℕ) (xs : List ℕ) → take i (set_top i xs) ≡ take i xs
take-set_top i [] = refl
take-set_top zero (b ∷ bs) = refl
take-set_top (suc i) (b ∷ bs) = ap (λ cs. b ∷ cs) (take-set_top i bs)

modify_last-set_top :
    (i : ℕ) (xs : List ℕ)
    → length xs ≡ suc i
    → modify_last (λ b. or_64 (and_127 b)) xs ≡ set_top i xs
modify_last-set_top i [] e = absurd (omega (arith, e))
modify_last-set_top zero (b ∷ []) e = refl
modify_last-set_top (suc i) (b ∷ []) e = absurd (omega (arith, e))
modify_last-set_top zero (b ∷ c ∷ bs) e = absurd (omega (arith, e))
modify_last-set_top (suc i) (b ∷ c ∷ bs) e =
    ap (λ ds. b ∷ ds) (modify_last-set_top i (c ∷ bs) (omega (arith, e)))

and_248_byte : (b : ℕ) → (and_248 b % 8 ≡ 0) × (and_248 b ≤ b) × (and_248 (and_248 b) ≡ and_248 b)
unfolding and_248
and_248_byte b = (omega arith, omega arith, omega arith)

-- From any 32 bytes, a new secret key is clamped, its 30 bytes in the middle are those given, and
-- making a key of its bytes again changes nothing.
pub new_secret_key-IsClamped :
    (bytes : List ℕ)
    → IsArray 32 bytes
    → IsClamped (new_secret_key bytes)
      × (drop 1 (take 31 (new_secret_key bytes).bytes) ≡ drop 1 (take 31 bytes))
      × (new_secret_key (new_secret_key bytes).bytes ≡ new_secret_key bytes)
unfolding new_secret_key
new_secret_key-IsClamped [] h = absurd (omega (arith, h.size))
new_secret_key-IsClamped (b ∷ bs) h =
    let (low, smaller, twice) = and_248_byte b in
    (
      record {
        array = record {
          size = omega (arith, h.size, length-set_top 30 bs);
          in_range = (omega (arith, smaller, h.in_range.0), All-set_top 30 bs h.in_range.1);
        };
        low_bits = low;
        top_bits = byte_at-set_top 30 bs (omega (arith, h.size));
      },
      take-set_top 30 bs,
      rw twice (ap (λ cs. record { bytes = and_248 b ∷ cs }) (set_top-set_top 30 bs)),
    )

-- Generating a secret key from 32 random bytes is making a key of them with SecretKey::new.
pub gen_with-new_secret_key :
    (random : List ℕ) → IsArray 32 random → gen_with random ≡ new_secret_key random
unfolding gen_with new_secret_key
gen_with-new_secret_key [] h = absurd (omega (arith, h.size))
gen_with-new_secret_key (b ∷ bs) h =
    ap (λ cs. record { bytes = cs })
      (modify_last-set_top 31 (and_248 b ∷ bs) (omega (arith, h.size)))
