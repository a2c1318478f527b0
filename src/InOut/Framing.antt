-- ===== src/InOut/Framing.antt =====
-- `InputBuffer::next_message` of dersp/src/inout.rs against the frame format.
use dersp.Prelude.{
  ℕ, ◌+◌, ◌^◌, ◌≤◌, ◌<◌, ◌≡◌, refl, sym, ap, ◌∙◌, true, false, List, [], ◌∷◌, ◌++◌, ltb, leb,
  length, take, drop, length-append, take-append, drop-append, append_assoc, arith, Bool-cases,
  lt→leb_false, take-append-drop, inl, take-append_short, append-nil, inr,
}
use dersp.Exec.{ok}
use dersp.Codec.Read.{fill_buf}
use dersp.Codec.Encode.{to_be_bytes}
use dersp.Codec.Decode.{decode_u8, decode_u32}
use dersp.Codec.Laws.Containers.{length-to_be_bytes}
use dersp.Codec.Laws.Reads.{Reads-u8, Reads-u32}
use dersp.Proto.Data.FrameType.{from_tag, decode_frame_type}
use dersp.Proto.Data.Frames.{Header, decode_header}
use dersp.InOut.{
  InputBuffer, Message, PartMessage, insufficient_data, message, extract, next_message,
}

-- A frame: a type byte, the size of the body in four bytes, and the body.
abbrev pub wire_message : ℕ → List ℕ → List ℕ
wire_message t body = t ∷ (to_be_bytes 4 (length body) ++ body)

abbrev pub message_of : ℕ → List ℕ → Message
message_of t body = record { ty = from_tag t; buffer = wire_message t body }

abbrev pub buffer_of : List ℕ → InputBuffer
buffer_of xs = record { bytes = xs }

-- A header decodes from a type byte and a size, whatever the byte is.
header_decodes :
    (t n : ℕ) (rest : List ℕ)
    → n < 2 ^ 32
    → decode_header (t ∷ (to_be_bytes 4 n ++ rest))
      ≡ (ok (record { frame_type = from_tag t; size = n }), rest)
unfolding decode_header decode_frame_type
header_decodes t n rest h = rw (Reads-u8 t (to_be_bytes 4 n ++ rest), Reads-u32 n h rest)

length-wire_message : (t : ℕ) (body : List ℕ) → length (wire_message t body) ≡ 5 + length body
unfolding to_be_bytes
length-wire_message t body = omega arith

-- The first five bytes of a buffer that begins as a frame does.
take_header :
    (t n : ℕ) (xs : List ℕ) → take 5 (t ∷ (to_be_bytes 4 n ++ xs)) ≡ t ∷ (to_be_bytes 4 n ++ [])
unfolding to_be_bytes
take_header t n xs = refl

-- With its header there, a buffer goes on to `extract`.
pub next_message_header :
    (t n : ℕ) (xs : List ℕ)
    → n < 2 ^ 32
    → next_message (buffer_of (t ∷ (to_be_bytes 4 n ++ xs)))
      ≡ extract
          (record { frame_type = from_tag t; size = n })
          (buffer_of (t ∷ (to_be_bytes 4 n ++ xs)))
unfolding next_message
next_message_header t n xs h =
    let long : ltb (length (t ∷ (to_be_bytes 4 n ++ xs))) 5 ≡ false =
      ground (arith, length-append (to_be_bytes 4 n) xs, length-to_be_bytes 4 n) in
    rw (long, take_header t n xs, header_decodes t n [] h)

abbrev header_of : ℕ → List ℕ → Header
header_of t body = record { frame_type = from_tag t; size = length body }

extract_complete :
    (header : Header) (frame rest : List ℕ)
    → length frame ≡ 5 + header.size
    → extract header (buffer_of (frame ++ rest))
      ≡ (ok (message (record { ty = header.frame_type; buffer = frame })), buffer_of rest)
unfolding extract
extract_complete header frame rest e =
    let enough : leb (length frame) (length (frame ++ rest)) ≡ true =
      ground (arith, length-append frame rest) in
    rw (← e, enough, take-append frame rest, drop-append frame rest)

pub extract_partial :
    (header : Header) (xs : List ℕ)
    → length xs < 5 + header.size
    → extract header (buffer_of xs) ≡ (ok insufficient_data, buffer_of xs)
unfolding extract
extract_partial header xs h = rw (lt→leb_false _ _ h)

-- A whole frame at the front is taken off the buffer, and the bytes after it stay.
pub next_message_complete :
    (t : ℕ) (body rest : List ℕ)
    → length body < 2 ^ 32
    → next_message (buffer_of (wire_message t body ++ rest))
      ≡ (ok (message (message_of t body)), buffer_of rest)
next_message_complete t body rest h =
    ap (λ xs. next_message (buffer_of (t ∷ xs)))
      (append_assoc (to_be_bytes 4 (length body)) body rest)
    ∙ next_message_header t (length body) (body ++ rest) h
    ∙ ap (λ xs. extract (header_of t body) (buffer_of (t ∷ xs)))
        (sym (append_assoc (to_be_bytes 4 (length body)) body rest))
    ∙ extract_complete (header_of t body) (wire_message t body) rest (length-wire_message t body)

-- A part of a frame of five bytes or more begins with the frame's header.
begins_with_header :
    (t : ℕ) (body front back : List ℕ)
    → 5 ≤ length front
    → front ++ back ≡ wire_message t body
    → front ≡ t ∷ (to_be_bytes 4 (length body) ++ drop 5 front)
begins_with_header t body front back h e =
    sym (take-append-drop 5 front)
    ∙ ap (λ xs. xs ++ drop 5 front)
        (sym (take-append_short 5 front back h) ∙ ap (take 5) e ∙ take_header t (length body) body)
    ∙ ap (λ xs. (t ∷ xs) ++ drop 5 front) (append-nil (to_be_bytes 4 (length body)))

-- While a part of the frame is missing, the buffer waits unchanged.
pub next_message_partial :
    (t : ℕ) (body front back : List ℕ)
    → length body < 2 ^ 32
    → 0 < length back
    → front ++ back ≡ wire_message t body
    → next_message (buffer_of front) ≡ (ok insufficient_data, buffer_of front)
next_message_partial t body front back h missing e = elim (Bool-cases (ltb (length front) 5)) [
  | inl short ↦ unfold next_message in rw short
  | inr long ↦
      let shape = begins_with_header t body front back (ground arith) e in
      ap (λ xs. next_message (buffer_of xs)) shape
      ∙ next_message_header t (length body) (drop 5 front) h
      ∙ ap (λ xs. extract (header_of t body) (buffer_of xs)) (sym shape)
      ∙ extract_partial (header_of t body) front
          (omega (arith, length-wire_message t body, length-append front back, ap length e))
]

-- The bytes that a call of `next_message` takes away.
abbrev pub taken : PartMessage → List ℕ
taken insufficient_data = []
taken (message m) = m.buffer

extract_conserves :
    (header : Header) (b : InputBuffer)
    → (p : PartMessage) × ((extract header b).0 ≡ ok p)
      × (taken p ++ (extract header b).1.bytes ≡ b.bytes)
unfolding extract
extract_conserves header b = elim (Bool-cases (leb (5 + header.size) (length b.bytes))) [
  | inl enough ↦ (
    message (record { ty = header.frame_type; buffer = take (5 + header.size) b.bytes }),
    rw enough,
    rw enough (take-append-drop (5 + header.size) b.bytes),
  )
  | inr short ↦ (insufficient_data, rw short, rw short)
]

-- Five bytes are always a header.
five_bytes_decode :
    (t b0 b1 b2 b3 : ℕ) → (h : Header) × ((decode_header (t ∷ b0 ∷ b1 ∷ b2 ∷ b3 ∷ [])).0 ≡ ok h)
unfolding decode_header decode_frame_type decode_u8 decode_u32 fill_buf
five_bytes_decode t b0 b1 b2 b3 = (_, refl)

abbrev Conserves : InputBuffer → Type 0
Conserves b =
    (p : PartMessage) × ((next_message b).0 ≡ ok p)
    × (taken p ++ (next_message b).1.bytes ≡ b.bytes)

module _ (t b0 b1 b2 b3 : ℕ) (xs : List ℕ) where
  long-Conserves : Conserves (buffer_of (t ∷ b0 ∷ b1 ∷ b2 ∷ b3 ∷ xs))
  unfolding next_message
  long-Conserves =
      let (h, e) = five_bytes_decode t b0 b1 b2 b3 in
      let long : ltb (length (t ∷ b0 ∷ b1 ∷ b2 ∷ b3 ∷ xs)) 5 ≡ false = ground arith in
      rw (long, e) (extract_conserves h (buffer_of (t ∷ b0 ∷ b1 ∷ b2 ∷ b3 ∷ xs)))

-- On any bytes at all next_message succeeds, and loses none: what it takes and what it leaves are
-- together what the buffer held.
pub next_message-Conserves : (xs : List ℕ) → Conserves (buffer_of xs)
unfolding next_message
next_message-Conserves [] = (insufficient_data, refl, refl)
next_message-Conserves (a ∷ []) = (insufficient_data, refl, refl)
next_message-Conserves (a ∷ b ∷ []) = (insufficient_data, refl, refl)
next_message-Conserves (a ∷ b ∷ c ∷ []) = (insufficient_data, refl, refl)
next_message-Conserves (a ∷ b ∷ c ∷ d ∷ []) = (insufficient_data, refl, refl)
next_message-Conserves (a ∷ b ∷ c ∷ d ∷ e ∷ xs) = long-Conserves a b c d e xs
