-- ===== src/Net.antt =====
-- Sockets, as the program sees them: what the calls of `read` deliver. `AsyncRead` is tokio's; a
-- call of `read` into a buffer of `size` bytes delivers a chunk of at most that size, an error, or,
-- at the end of the stream and ever after, no bytes.
use dersp.Prelude.{ℕ, Bool, ◌+◌, List, [], ◌∷◌, ◌++◌, leb, length, take, drop, if◌then◌else◌}
use dersp.Exec.{Exec, ok, err}
use dersp.Failure.{Failure, io_failed}

pub data Chunk : Type 0 where
  received : List ℕ → Chunk
  broken : Chunk

abbrev pub Stream : Type 0
Stream = List Chunk

-- `reader.read(&mut buf).await?` with a buffer of `size` bytes
unfoldable pub read : ℕ → Exec Failure Stream (List ℕ)
read size [] = (ok [], [])
read size (broken ∷ s) = (err io_failed, s)
read size (received c ∷ s) =
    if leb (length c) size then (ok c, s) else (ok (take size c), received (drop size c) ∷ s)

-- A socket's write half: what was written, and whether the connection is broken.
pub record Writer : Type 0 where
  pub written : List ℕ
  pub is_broken : Bool

-- `writer.write_all(&buf).await`
unfoldable pub write_all : List ℕ → Exec Failure Writer (Unit {0})
write_all buf w =
    if w.is_broken then (err io_failed, w) else (ok tt, record w { written = w.written ++ buf })

-- The bytes that are still to come on a stream that does not break.
abbrev pub pending : Stream → List ℕ
pending [] = []
pending (received c ∷ s) = c ++ pending s
pending (broken ∷ s) = pending s

-- No read of the stream fails.
abbrev pub IsSound : Stream → Type 0
IsSound [] = Unit {0}
IsSound (received c ∷ s) = IsSound s
IsSound (broken ∷ s) = ⊥

-- How many reads the stream can take before it is at its end, at most.
abbrev pub reads_left : Stream → ℕ
reads_left [] = 0
reads_left (received c ∷ s) = length c + 1 + reads_left s
reads_left (broken ∷ s) = 1 + reads_left s
