-- ===== src/InOut/Clean.antt =====
-- `DerpReader` of dersp/src/inout.rs on a stream of bytes: what it returns and keeps are bytes.
use dersp.Prelude.{
  ℕ, zero, suc, ◌≡◌, refl, subst, sym, List, [], ◌∷◌, ◌++◌, leb, length, take, drop,
  take-append-drop, All-append, Bool-cases, inl, inr, ◌<◌,
}
use dersp.Exec.{Exec, Outcome, panic, ok, err, stuck, continue, Exec}
use dersp.Exec.Yields.{Yields, Yields-bind, Yields-lift, Yields-pure}
use dersp.Failure.{Failure}
use dersp.Net.{Stream, received, broken, read, pending}
use dersp.Codec.Laws.Exact.{AreBytes, AreBytes-parts}
use dersp.InOut.{
  Message, PartMessage, insufficient_data, message, DerpReader, fill, poll, on_part, input_data,
  get_next_message, max_tcp_packet_size, input_data,
}
use dersp.InOut.Framing.{wire_message}
use dersp.InOut.Parsing.{IsParsed, next_message-IsParsed}

-- What is buffered and what is still to come are bytes.
abbrev pub IsClean : DerpReader → Type 0
IsClean r = AreBytes r.input_buffer.bytes × AreBytes (pending r.reader)

abbrev pub IsCleanMessage : Message → Type 0
IsCleanMessage m = AreBytes m.buffer

IsCleanPart : PartMessage → Type 0
IsCleanPart insufficient_data = Unit {0}
IsCleanPart (message m) = AreBytes m.buffer

IsCleanPart-parsed :
    (xs : List ℕ) (p : PartMessage) (rest : List ℕ)
    → IsParsed xs p rest
    → AreBytes xs
    → IsCleanPart p × AreBytes rest
unfolding IsCleanPart
IsCleanPart-parsed xs insufficient_data rest (same, none_here) h = (tt, subst AreBytes (sym same) h)
IsCleanPart-parsed xs (message m) rest (t, body, same, (small, split)) h =
    let (front, back) = AreBytes-parts (wire_message t body) rest xs split h in
    (subst IsCleanMessage (sym same) front, back)

Yields-poll : Yields IsClean IsCleanPart poll
unfolding poll
Yields-poll = record {
  at = λ r (buffered, to_come).
      let (p, rest, same, parsed) = next_message-IsParsed r.input_buffer.bytes buffered in
      let (part, left) = IsCleanPart-parsed r.input_buffer.bytes p rest parsed buffered in
      rw same ((left, to_come), λ a e. subst IsCleanPart (cc e) part);
}

same_bytes :
    (xs ys : List ℕ)
    → ◌≡◌ {A = Outcome Failure (List ℕ)} (ok xs) (ok ys)
    → AreBytes xs
    → AreBytes ys
same_bytes xs ys e h = let same : xs ≡ ys = cc e in subst AreBytes same h

-- One `read` takes its bytes off the stream.
read_run :
    (size : ℕ) (s : Stream)
    → AreBytes (pending s)
    → AreBytes (pending (read size s).1) × ((c : List ℕ) → (read size s).0 ≡ ok c → AreBytes c)
unfolding read
read_run size [] h = (tt, λ c e. same_bytes [] c e tt)
read_run size (broken ∷ s) h = (h, λ c e. absurd (cc e))
read_run size (received c ∷ s) h =
    let (now, later) = AreBytes-parts c (pending s) (c ++ pending s) refl h in
    elim (Bool-cases (leb (length c) size)) [
      | inl fits ↦ rw fits (later, λ b e. same_bytes c b e now)
      | inr long ↦
          let (front, back) =
            AreBytes-parts (take size c) (drop size c) c (take-append-drop size c) now in
          rw long (
            All-append (λ b. b < 256) (drop size c) (pending s) back later,
            λ b e. same_bytes (take size c) b e front,
          )
    ]

-- What `fill` does with what it has read.
abbrev keep : List ℕ → Exec Failure DerpReader (Unit {0})
keep chunk r = (ok tt, record r { input_buffer = input_data chunk r.input_buffer })

Yields-fill : Yields IsClean (λ _. Unit {0}) fill
unfolding fill
Yields-fill = record {
  at = λ r (buffered, to_come).
      let (later, now) = read_run max_tcp_packet_size r.reader to_come in
      (filled (read max_tcp_packet_size r.reader) r buffered later now, λ a e. tt);
}
  where
    filled :
        (p : Outcome Failure (List ℕ) × Stream) (r : DerpReader)
        → AreBytes r.input_buffer.bytes
        → AreBytes (pending p.1)
        → ((c : List ℕ) → p.0 ≡ ok c → AreBytes c)
        → IsClean (continue p.0 keep (record r { reader = p.1 })).1
    filled (ok c, s) r buffered later now =
        (All-append (λ b. b < 256) r.input_buffer.bytes c buffered (now c refl), later)
    filled (err x, s) r buffered later now = (buffered, later)
    filled (panic, s) r buffered later now = (buffered, later)
    filled (stuck, s) r buffered later now = (buffered, later)

Yields-on_part :
    (again : Exec Failure DerpReader Message) (p : PartMessage)
    → Yields IsClean IsCleanMessage again
    → IsCleanPart p
    → Yields IsClean IsCleanMessage (on_part again p)
unfolding on_part IsCleanPart
Yields-on_part again insufficient_data h part =
    Yields-bind (λ _. Unit {0}) fill _ Yields-fill (λ _ _. h)
Yields-on_part again (message m) h part = Yields-pure m part

-- The reader's messages on a stream of bytes are bytes, and so is what it keeps.
pub Yields-get_next_message : (fuel : ℕ) → Yields IsClean IsCleanMessage (get_next_message fuel)
unfolding get_next_message
Yields-get_next_message zero = Yields-lift stuck (λ a e. absurd (cc e))
Yields-get_next_message (suc fuel) =
    Yields-bind IsCleanPart poll _ Yields-poll
      λ p part. Yields-on_part (get_next_message fuel) p (Yields-get_next_message fuel) part
