-- ===== src/Codec/Laws/Exact/Numbers.antt =====
-- codec/src/decode.rs where it succeeds: numbers, and the bytes of a `Vec<u8>`.
use dersp.Prelude.{
  ℕ, ◌<◌, ◌≡◌, sym, ap, ◌∙◌, false, ltb, List, [], ◌∷◌, ◌++◌, append-nil, length, arith, ◌*◌, ◌^◌,
  ◌%◌, ◌+◌, ◌/◌,
}
use dersp.Codec.Read.{fill_buf}
use dersp.Codec.Encode.{to_be_bytes}
use dersp.Codec.Decode.{decode_u8, decode_u32, decode_vec}
use dersp.Codec.Laws.Reads.{Drains-bytes}
use dersp.Exec.{ok}
use dersp.Codec.Laws.Exact.{AreBytes, Taken, IsExact}

u8-Taken :
    (s : List ℕ) (b : ℕ) (rest : List ℕ)
    → decode_u8 s ≡ (ok b, rest)
    → Taken (λ b xs. xs ≡ b ∷ []) s b rest
unfolding decode_u8 fill_buf
u8-Taken [] b rest e = absurd (cc e)
u8-Taken (x ∷ xs) b rest e =
    let long : ltb (length (x ∷ xs)) 1 ≡ false = ground arith in
    let fine : (ok x, xs) ≡ (ok b, rest) = rw long at e in
    (x ∷ [], ap (λ r. x ∷ r) (cc fine), ap (λ y. y ∷ []) (cc fine))

pub IsExact-u8 : IsExact (λ b xs. xs ≡ b ∷ []) decode_u8
IsExact-u8 = record { taken = λ s b rest hs e. u8-Taken s b rest e }

-- Four bytes that are put together are the number's bytes in network order.
abbrev pub Holds32 : ℕ → List ℕ → Type 0
Holds32 n xs = (xs ≡ to_be_bytes 4 n) × (n < 2 ^ 32)

pub be_bytes :
    (a b c d n : ℕ)
    → a < 256
    → b < 256
    → c < 256
    → d < 256
    → n ≡ ((a * 2 ^ 24 + b * 2 ^ 16 + c * 2 ^ 8) + d)
    → Holds32 n (a ∷ b ∷ c ∷ d ∷ [])
unfolding to_be_bytes
be_bytes a b c d n ha hb hc hd e =
    let ea : n / 2 ^ 24 % 256 ≡ a = omega arith in
    let eb : n / 2 ^ 16 % 256 ≡ b = omega arith in
    let ec : n / 2 ^ 8 % 256 ≡ c = omega arith in
    let ed : n / 1 % 256 ≡ d = omega arith in (rw (ea, eb, ec, ed), omega arith)

unshift :
    (a b c d : ℕ)
    → a < 256
    → b < 256
    → c < 256
    → d < 256
    → ((a * 2 ^ 24 % 2 ^ 32 + b * 2 ^ 16 % 2 ^ 32 + c * 2 ^ 8 % 2 ^ 32) + d) % 2 ^ 32
      ≡ ((a * 2 ^ 24 + b * 2 ^ 16 + c * 2 ^ 8) + d)
unshift a b c d ha hb hc hd = omega arith

u32-Taken :
    (s : List ℕ) (n : ℕ) (rest : List ℕ)
    → AreBytes s
    → decode_u32 s ≡ (ok n, rest)
    → Taken Holds32 s n rest
unfolding decode_u32 fill_buf
u32-Taken [] n rest hs e = absurd (cc e)
u32-Taken (a ∷ []) n rest hs e = absurd (cc e)
u32-Taken (a ∷ b ∷ []) n rest hs e = absurd (cc e)
u32-Taken (a ∷ b ∷ c ∷ []) n rest hs e = absurd (cc e)
u32-Taken (a ∷ b ∷ c ∷ d ∷ xs) n rest (ha, (hb, (hc, (hd, hs)))) e =
    let long : ltb (length (a ∷ b ∷ c ∷ d ∷ xs)) 4 ≡ false = ground arith in
    let fine : (
      ok ((a * 2 ^ 24 % 2 ^ 32 + b * 2 ^ 16 % 2 ^ 32 + c * 2 ^ 8 % 2 ^ 32 + d) % 2 ^ 32),
      xs,
    )
        ≡ (ok n, rest) =
      rw long at e in
    (
      a ∷ b ∷ c ∷ d ∷ [],
      ap (λ r. a ∷ b ∷ c ∷ d ∷ r) (cc fine),
      be_bytes a b c d n ha hb hc hd (sym (cc fine) ∙ unshift a b c d ha hb hc hd),
    )

pub IsExact-u32 : IsExact Holds32 decode_u32
IsExact-u32 = record { taken = u32-Taken }

-- `Vec<u8>` holds all the bytes there are.
pub IsExact-bytes : IsExact (λ b xs. xs ≡ b) (decode_vec decode_u8)
IsExact-bytes = record {
  taken = λ s b rest hs e.
      let same = sym (Drains-bytes s) ∙ e in
      (s, ap (λ r. s ++ r) (sym (cc same)) ∙ append-nil s, cc same);
}
