-- ===== src/Examples/Keys.antt =====
-- Keys of dersp/src/crypto.rs: concrete bytes, and text codecs that pad with zeros.
use dersp.Prelude.{
  ℕ, ◌≡◌, refl, ap, some, List, [], ◌∷◌, ◌++◌, take, drop, replicate, arith, length-append,
  take-append, subst,
}
use dersp.Exec.{ok}
use dersp.Crypto.Keys.{IsArray}
use dersp.Crypto.Clamp.{new_secret_key, IsClamped, new_secret_key-IsClamped}
use dersp.Crypto.Text.{
  TextCodecs, IsTextCodecs, from_str, display, lower_hex, secret_key_round_trip,
}

-- The key of the unit tests: 32 times `0xBA`.
abbrev test_bytes : List ℕ
test_bytes = replicate 32 0xBA

test_bytes-IsArray : IsArray 32 test_bytes
test_bytes-IsArray = omega arith

test_key : (new_secret_key test_bytes).bytes ≡ 0xB8 ∷ (replicate 30 0xBA ++ (0x7A ∷ []))
unfolding new_secret_key
test_key = refl

new_secret_key-IsClamped_example :
    IsClamped (new_secret_key test_bytes)
    × (drop 1 (take 31 (new_secret_key test_bytes).bytes) ≡ drop 1 (take 31 test_bytes))
    × (new_secret_key (new_secret_key test_bytes).bytes ≡ new_secret_key test_bytes)
new_secret_key-IsClamped_example = new_secret_key-IsClamped test_bytes test_bytes-IsArray

-- Texts of the right lengths, which begin with the bytes themselves.
abbrev padding : TextCodecs
padding = record {
  hex_encode = λ bytes. bytes ++ replicate 32 0;
  hex_decode = λ s. some (take 32 s);
  base64_encode = λ bytes. bytes ++ replicate 12 0;
  base64_decode = λ s. some (take 32 s);
}

take-padding :
    (bytes more : List ℕ) → IsArray 32 bytes → some (take 32 (bytes ++ more)) ≡ some bytes
take-padding bytes more h =
    subst (λ n. some (take n (bytes ++ more)) ≡ some bytes) h.size
      (ap some (take-append bytes more))

padding-IsTextCodecs : IsTextCodecs padding
padding-IsTextCodecs = record {
  length-hex = λ bytes h. omega (arith, h.size, length-append bytes (replicate 32 0));
  length-base64 = λ bytes h. omega (arith, h.size, length-append bytes (replicate 12 0));
  hex_decodes = λ bytes h. take-padding bytes (replicate 32 0) h;
  base64_decodes = λ bytes h. take-padding bytes (replicate 12 0) h;
}

secret_key_round_trip_example :
    (from_str padding new_secret_key (display padding (new_secret_key test_bytes).bytes)
      ≡ ok (new_secret_key test_bytes))
    × (from_str padding new_secret_key (lower_hex padding (new_secret_key test_bytes).bytes)
        ≡ ok (new_secret_key test_bytes))
secret_key_round_trip_example =
    secret_key_round_trip padding padding-IsTextCodecs test_bytes test_bytes-IsArray
