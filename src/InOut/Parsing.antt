-- ===== src/InOut/Parsing.antt =====
-- `InputBuffer::next_message` of dersp/src/inout.rs as a parser: on any bytes it takes off a whole
-- frame if there is one at the front, and nothing else.
use dersp.Prelude.{
  ℕ, ◌+◌, ◌*◌, ◌^◌, ◌<◌, ◌≡◌, refl, sym, ap, subst, ◌∙◌, List, [], ◌∷◌, ◌++◌, leb, length, take,
  drop, length-take, take-append-drop, append_assoc, length-append, Bool-cases, inl, inr, arith,
}
use dersp.Exec.{ok}
use dersp.Codec.Encode.{to_be_bytes}
use dersp.Codec.Laws.Containers.{length-to_be_bytes}
use dersp.Codec.Laws.Exact.{AreBytes}
use dersp.Codec.Laws.Exact.Numbers.{be_bytes}
use dersp.Proto.Data.FrameType.{from_tag}
use dersp.InOut.{PartMessage, insufficient_data, message, next_message}
use dersp.InOut.Framing.{
  wire_message, message_of, buffer_of, next_message_complete, next_message_header, extract_partial,
}

-- A whole frame with these contents, and then `rest`.
abbrev BeginsWith : List ℕ → ℕ → List ℕ → List ℕ → Type 0
BeginsWith xs t body rest = (length body < 2 ^ 32) × (wire_message t body ++ rest ≡ xs)

-- What a parser of frames takes off `xs`, leaving `rest`: the frame at the front, or nothing if no
-- whole frame stands there.
abbrev pub IsParsed : List ℕ → PartMessage → List ℕ → Type 0
IsParsed xs insufficient_data rest =
    (rest ≡ xs) × ((t : ℕ) (body more : List ℕ) → ¬ (BeginsWith xs t body more))
IsParsed xs (message m) rest =
    (t : ℕ) × (body : List ℕ) × (m ≡ message_of t body) × BeginsWith xs t body rest

abbrev Parses : List ℕ → Type 0
Parses xs =
    (p : PartMessage) × (rest : List ℕ) × (next_message (buffer_of xs) ≡ (ok p, buffer_of rest))
    × IsParsed xs p rest

-- If the buffer waits, there is no whole frame at its front.
waiting-Parses :
    (xs : List ℕ) → next_message (buffer_of xs) ≡ (ok insufficient_data, buffer_of xs) → Parses xs
waiting-Parses xs waits = (insufficient_data, xs, waits, (refl, none_here))
  where
    none_here : (t : ℕ) (body more : List ℕ) → ¬ (BeginsWith xs t body more)
    none_here t body more (small, same) =
        let whole = next_message_complete t body more small in
        let wrong = sym waits ∙ ap (λ ys. next_message (buffer_of ys)) (sym same) ∙ whole in
        cc wrong

module _ (t n : ℕ) (xs : List ℕ) (small : n < 2 ^ 32) where
  header-Parses : Parses (t ∷ (to_be_bytes 4 n ++ xs))
  header-Parses = elim (Bool-cases (leb n (length xs))) [
    | inl enough ↦
        let body : List ℕ = take n xs in
        let size : length body ≡ n = length-take n xs (ground (arith, enough)) in
        let same : wire_message t body ++ drop n xs ≡ t ∷ (to_be_bytes 4 n ++ xs) =
          ap (λ k. (t ∷ (to_be_bytes 4 k ++ body)) ++ drop n xs) size
          ∙ ap (λ r. t ∷ r)
              (append_assoc (to_be_bytes 4 n) body (drop n xs)
                ∙ ap (λ r. to_be_bytes 4 n ++ r) (take-append-drop n xs)) in
        let fits : length body < 2 ^ 32 = omega (arith, size, small) in
        (
          message (message_of t body),
          drop n xs,
          ap (λ ys. next_message (buffer_of ys)) (sym same)
              ∙ next_message_complete t body (drop n xs) fits,
          (t, body, refl, (fits, same)),
        )
    | inr short ↦ waiting-Parses (t ∷ (to_be_bytes 4 n ++ xs)) (
        next_message_header t n xs small
        ∙ extract_partial (record { frame_type = from_tag t; size = n })
            (t ∷ (to_be_bytes 4 n ++ xs))
            (ground (arith, short, length-append (to_be_bytes 4 n) xs, length-to_be_bytes 4 n)))
  ]

-- On any bytes at all next_message succeeds, and does as a parser of frames: if it returns a
-- message, then the message is a frame with the type of its first byte and a body below 2^32
-- bytes, and it and what is left are together what the buffer held; if it returns none, the
-- buffer stays as it was and no whole frame stands at its front.
pub next_message-IsParsed :
    (xs : List ℕ)
    → AreBytes xs
    → (p : PartMessage) × (rest : List ℕ) × (next_message (buffer_of xs) ≡ (ok p, buffer_of rest))
      × IsParsed xs p rest
unfolding next_message
next_message-IsParsed [] h = waiting-Parses [] refl
next_message-IsParsed (a ∷ []) h = waiting-Parses (a ∷ []) refl
next_message-IsParsed (a ∷ b ∷ []) h = waiting-Parses (a ∷ b ∷ []) refl
next_message-IsParsed (a ∷ b ∷ c ∷ []) h = waiting-Parses (a ∷ b ∷ c ∷ []) refl
next_message-IsParsed (a ∷ b ∷ c ∷ d ∷ []) h = waiting-Parses (a ∷ b ∷ c ∷ d ∷ []) refl
next_message-IsParsed (t ∷ a ∷ b ∷ c ∷ d ∷ xs) (ht, (ha, (hb, (hc, (hd, h))))) =
    let n : ℕ = (a * 2 ^ 24 + b * 2 ^ 16 + c * 2 ^ 8) + d in
    let (bytes, small) = be_bytes a b c d n ha hb hc hd refl in
    subst Parses (ap (λ ys. t ∷ (ys ++ xs)) (sym bytes)) (header-Parses t n xs small)
