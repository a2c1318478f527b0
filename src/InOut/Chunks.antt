-- ===== src/InOut/Chunks.antt =====
-- `DerpReader::get_next_message` of dersp/src/inout.rs on the reads that the network delivers.
use dersp.Prelude.{
  ℕ, zero, suc, ◌^◌, ◌≤◌, ◌<◌, ◌≡◌, refl, sym, ap, ◌∙◌, List, [], ◌∷◌, ◌++◌, Bool-cases, inl, inr,
  leb, length, take, drop, length-append, length-drop, take-append-drop, append_assoc, append-split,
  arith, leb→le, leb_false→lt,
}
use dersp.Exec.{ok, stuck, bind-ok, ◌>>=◌, pure, Exec}
use dersp.Net.{Stream, received, broken, read, pending, IsSound, reads_left}
use dersp.InOut.{
  DerpReader, Message, insufficient_data, message, fill, poll, on_part, get_next_message,
  max_tcp_packet_size, next_message, Failure,
}
use dersp.InOut.Framing.{
  wire_message, message_of, buffer_of, next_message_complete, next_message_partial,
}

abbrev pub reader_of : Stream → List ℕ → DerpReader
reader_of s xs = record { reader = s; input_buffer = buffer_of xs }

-- What one `read` of a sound stream does.
read_lem :
    (n : ℕ) (s : Stream)
    → 0 < n
    → IsSound s
    → (c : List ℕ) × (s' : Stream) × (read n s ≡ (ok c, s'))
      × (c ++ pending s' ≡ pending s)
      × IsSound s'
      × (0 < length (pending s) → reads_left s' < reads_left s)
unfolding read
read_lem n [] pos sound = ([], [], refl, refl, tt, λ h. absurd (omega arith))
read_lem n (broken ∷ s) pos sound = absurd sound
read_lem n (received c ∷ s) pos sound = elim (Bool-cases (leb (length c) n)) [
  | inl small ↦ (c, s, rw small, refl, sound, λ _. omega arith)
  | inr big ↦ (
    take n c,
    received (drop n c) ∷ s,
    rw big,
    sym (append_assoc (take n c) (drop n c) (pending s))
        ∙ ap (λ xs. xs ++ pending s) (take-append-drop n c),
    sound,
    λ _. ground (arith, length-drop n c),
  )
]

-- The same for `fill`, which appends what was read to the buffer.
fill_lem :
    (s : Stream) (front : List ℕ)
    → IsSound s
    → (s' : Stream) × (front' : List ℕ) × (fill (reader_of s front) ≡ (ok tt, reader_of s' front'))
      × (front' ++ pending s' ≡ front ++ pending s)
      × IsSound s'
      × (0 < length (pending s) → reads_left s' < reads_left s)
unfolding fill
fill_lem s front sound =
    let (c, s', e, same, sound', less) = read_lem max_tcp_packet_size s (omega arith) sound in
    (
      s',
      front ++ c,
      rw e,
      append_assoc front c (pending s') ∙ ap (λ xs. front ++ xs) same,
      sound',
      less,
    )

-- One round of the loop, by what the buffer holds.
round_done :
    (fuel : ℕ) (s : Stream) (xs ys : List ℕ) (m : Message)
    → next_message (buffer_of xs) ≡ (ok (message m), buffer_of ys)
    → get_next_message (suc fuel) (reader_of s xs) ≡ (ok m, reader_of s ys)
unfolding get_next_message on_part poll
round_done fuel s xs ys m e = rw e

round_more :
    (fuel : ℕ) (s s' : Stream) (xs ys : List ℕ)
    → next_message (buffer_of xs) ≡ (ok insufficient_data, buffer_of xs)
    → fill (reader_of s xs) ≡ (ok tt, reader_of s' ys)
    → get_next_message (suc fuel) (reader_of s xs) ≡ get_next_message fuel (reader_of s' ys)
unfolding get_next_message on_part poll
round_more fuel s s' xs ys e f = rw e (bind-ok fill (λ _. get_next_message fuel) f)

-- If the bytes buffered and pending begin with a frame, and there is fuel for every read, then the
-- frame is returned, and the bytes after it stay buffered or pending.
pub get_next_message_reads :
    (fuel t : ℕ) (body rest : List ℕ) (s : Stream) (front : List ℕ)
    → length body < 2 ^ 32
    → IsSound s
    → reads_left s < fuel
    → front ++ pending s ≡ wire_message t body ++ rest
    → (s' : Stream) × (left : List ℕ) × (get_next_message fuel (reader_of s front)
        ≡ (ok (message_of t body), reader_of s' left))
      × (left ++ pending s' ≡ rest)
      × IsSound s'
      × (reads_left s' ≤ reads_left s)
get_next_message_reads zero t body rest s front small sound enough e = elim enough [ ]
get_next_message_reads (suc fuel) t body rest s front small sound enough e =
    elim (Bool-cases (leb (length (wire_message t body)) (length front))) [
      | inl whole ↦
          let (shape, after) =
            append-split front (pending s) (wire_message t body) rest e (leb→le _ _ whole) in
          (
            s,
            drop (length (wire_message t body)) front,
            round_done fuel s front _ (message_of t body) (
                ap (λ xs. next_message (buffer_of xs)) (sym shape)
                ∙ next_message_complete t body _ small),
            after,
            sound,
            omega arith,
          )
      | inr part ↦
          let (shape, after) =
            append-split (wire_message t body) rest front (pending s) (sym e) (ground arith) in
          let back = drop (length front) (wire_message t body) in
          let some_back : 0 < length back =
            omega
              (arith, length-drop (length front) (wire_message t body), leb_false→lt _ _ part) in
          let (s', front', filled, same, sound', less) = fill_lem s front sound in
          let some_left : 0 < length (pending s) =
            omega (arith, ap length after, length-append back rest) in
          let fewer : reads_left s' < reads_left s = less some_left in
          let (s'', left, run, over, sound'', fewer') =
            get_next_message_reads fuel t body rest s' front' small sound' (omega arith)
              (same ∙ e) in
          (
            s'',
            left,
            round_more fuel s s' front front'
                  (next_message_partial t body front back small some_back shape) filled
                ∙ run,
            over,
            sound'',
            omega arith,
          )
    ]

-- On a stream without read errors that stops inside a frame whose body is below 2^32 bytes,
-- get_next_message never returns: no fuel is enough.
pub get_next_message_spins :
    (fuel t : ℕ) (body : List ℕ) (s : Stream) (front back : List ℕ)
    → length body < 2 ^ 32
    → IsSound s
    → 0 < length back
    → (front ++ pending s) ++ back ≡ wire_message t body
    → (get_next_message fuel (reader_of s front)).0 ≡ stuck
get_next_message_spins zero t body s front back small sound missing e =
    unfold get_next_message in refl
get_next_message_spins (suc fuel) t body s front back small sound missing e =
    let (s', front', filled, same, sound', _) = fill_lem s front sound in
    ap (λ r. r.0)
      (round_more fuel s s' front front'
        (next_message_partial t body front (pending s ++ back) small
          (omega (arith, length-append (pending s) back))
          (sym (append_assoc front (pending s) back) ∙ e))
        filled)
    ∙ get_next_message_spins fuel t body s' front' back small sound' missing
        (ap (λ xs. xs ++ back) same ∙ e)

-- The messages that a loop around `get_next_message` sees: the next `n` of them.
unfoldable pub read_messages : ℕ → ℕ → Exec Failure DerpReader (List Message)
read_messages fuel zero = pure []
read_messages fuel (suc n) = do m ← get_next_message fuel; ms ← read_messages fuel n; pure (m ∷ ms)

-- A frame whose size fits the header, as a type byte and a body.
pub record Body : Type 0 where
  pub type_byte : ℕ
  pub bytes : List ℕ
  pub small : length bytes < 2 ^ 32

abbrev wire_all : List Body → List ℕ
wire_all [] = []
wire_all (f ∷ fs) = wire_message f.type_byte f.bytes ++ wire_all fs

abbrev pub messages_of : List Body → List Message
messages_of [] = []
messages_of (f ∷ fs) = message_of f.type_byte f.bytes ∷ messages_of fs

-- On a stream without read errors, and with more fuel than the stream has reads left, if the
-- bytes buffered and still to come begin with the wire form of some frames whose bodies are below
-- 2^32 bytes, then as many calls of `get_next_message` return exactly these frames in order,
-- however the network cuts the bytes into reads, and the bytes after them stay buffered or
-- pending.
pub read_messages_lem :
    (fuel : ℕ) (fs : List Body) (s : Stream) (front rest : List ℕ)
    → IsSound s
    → reads_left s < fuel
    → front ++ pending s ≡ wire_all fs ++ rest
    → (s' : Stream) × (left : List ℕ) × (read_messages fuel (length fs) (reader_of s front)
        ≡ (ok (messages_of fs), reader_of s' left))
      × (left ++ pending s' ≡ rest)
unfolding read_messages
read_messages_lem fuel [] s front rest sound enough e = (s, front, refl, e)
read_messages_lem fuel (f ∷ fs) s front rest sound enough e =
    let first = wire_message f.type_byte f.bytes in
    let (s', left, run, over, sound', fewer) =
      get_next_message_reads fuel f.type_byte f.bytes (wire_all fs ++ rest) s front f.small sound
        enough (e ∙ append_assoc first (wire_all fs) rest) in
    let (s'', left', run', over') =
      read_messages_lem fuel fs s' left rest sound' (omega arith) over in
    (s'', left', rw (run, run'), over')
