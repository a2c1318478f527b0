-- ===== src/Client/Authentic.antt =====
-- What a client can make the service do, whatever bytes it sends (dersp/src/client.rs).
use dersp.Prelude.{
  ℕ, zero, suc, ◌≡◌, refl, Bool, true, false, [], ◌∷◌, All, All-append, arith, List,
}
use dersp.Exec.{Exec, Outcome, ok, err, panic, stuck, continue, ◌>>=◌, pure, lift}
use dersp.Failure.{Failure}
use dersp.Codec.Read.{Decode}
use dersp.Crypto.Keys.{PublicKey}
use dersp.Channel.{Sink, ServiceCommand}
use dersp.InOut.{Message, DerpReader}
use dersp.Proto.Data.FrameType.{FrameType}
use dersp.Client.ReadLoop.{
  ReadState, submit, submit_or_panic, open_frame, on_message, next, read_loop,
}

-- A command that the client with key `pk` may cause: its packets carry its own key as the source,
-- it subscribes itself and only if it may mesh, and it announces peers only behind its own sink.
abbrev pub IsAuthentic : PublicKey → Bool → Sink → ServiceCommand → Type 0
IsAuthentic pk can_mesh sink ServiceCommand.stop = ⊥
IsAuthentic pk can_mesh sink (ServiceCommand.send_packet source target payload) = source ≡ pk
IsAuthentic pk can_mesh sink (ServiceCommand.subscribe_for_peer_changes k s) =
    (k ≡ pk) × (s ≡ sink) × (can_mesh ≡ true)
IsAuthentic pk can_mesh sink (ServiceCommand.peer_present k s) = s ≡ sink

-- An action that keeps a property of the queue.
pub record Keeps {A : Type 0} (I : ReadState → Type 0) (m : Exec Failure ReadState A) : Type 0 where
  pub at : (s : ReadState) → I s → I (m s).1

module _ {A : Type 0} {I : ReadState → Type 0} where
  Keeps-pure : (a : A) → Keeps I (pure a)
  Keeps-pure a = record { at = λ s h. h }

  pub Keeps-lift : (r : Outcome Failure A) → Keeps I (lift r)
  Keeps-lift r = record { at = λ s h. h }

module _ {A B : Type 0} {I : ReadState → Type 0} where
  Keeps-continue :
      (r : Outcome Failure A) (f : A → Exec Failure ReadState B)
      → ((a : A) → Keeps I (f a))
      → Keeps I (continue r f)
  Keeps-continue (ok a) f k = k a
  Keeps-continue (err e) f k = record { at = λ s h. h }
  Keeps-continue panic f k = record { at = λ s h. h }
  Keeps-continue stuck f k = record { at = λ s h. h }

  pub Keeps-bind :
      (m : Exec Failure ReadState A) (f : A → Exec Failure ReadState B)
      → Keeps I m
      → ((a : A) → Keeps I (f a))
      → Keeps I (m >>= f)
  Keeps-bind m f km kf = record {
    at = λ s h. let (r, s') = m s in (Keeps-continue r f kf).at s' (km.at s h);
  }

module _ {I : ReadState → Type 0} where
  pub Keeps-submit_or_panic :
      (c : ServiceCommand) → Keeps I (submit c) → Keeps I (submit_or_panic c)
  unfolding submit_or_panic
  Keeps-submit_or_panic c k = record { at = λ s h. k.at s h }

  pub Keeps-open_frame :
      {T : Type 0} (decode : Decode T) (m : Message) → Keeps I (open_frame decode m)
  unfolding open_frame
  Keeps-open_frame decode m = Keeps-bind _ _ (Keeps-lift _) (λ frame. Keeps-pure _)

-- Every command of the queue has a property.
abbrev pub Queued : (ServiceCommand → Type 0) → ReadState → Type 0
Queued P s = All P s.queued

module _ {P : ServiceCommand → Type 0} where
  pub Keeps-submit : (c : ServiceCommand) → P c → Keeps (Queued P) (submit c)
  unfolding submit
  Keeps-submit c p = record { at = λ s h. grind (arith, All-append P s.queued (c ∷ []) h (p, tt)) }

  pub Keeps-next : (fuel : ℕ) → Keeps (Queued P) (next fuel)
  unfolding next
  Keeps-next fuel = record { at = λ s h. h }

-- The queue of a service that is gone stays as it is.
abbrev pub IsGone : List ServiceCommand → ReadState → Type 0
IsGone queue s = (s.service_alive ≡ false) × (s.queued ≡ queue)

pub submit-IsGone :
    (queue : List ServiceCommand) (c : ServiceCommand) → Keeps (IsGone queue) (submit c)
unfolding submit
submit-IsGone queue c = record { at = λ s h. rw (h.0) (refl, h.1) }

-- One frame does what the commands do that the client may cause.
pub Keeps-on_message :
    (I : ReadState → Type 0) (pk : PublicKey) (can_mesh : Bool) (sink : Sink)
    → ((c : ServiceCommand) → IsAuthentic pk can_mesh sink c → Keeps I (submit c))
    → (ty : FrameType) (m : Message) → Keeps I (on_message pk can_mesh sink ty m)
unfolding on_message
Keeps-on_message I pk can_mesh sink may FrameType.send_packet m =
    Keeps-bind _ _ (Keeps-open_frame _ m) (λ p. may _ refl)
Keeps-on_message I pk true sink may FrameType.watch_conns m = may _ (refl, refl, refl)
Keeps-on_message I pk false sink may FrameType.watch_conns m = Keeps-pure tt
Keeps-on_message I pk can_mesh sink may FrameType.peer_present m =
    Keeps-bind _ _ (Keeps-open_frame _ m) (λ p. Keeps-submit_or_panic _ (may _ refl))
Keeps-on_message I pk can_mesh sink may _ m = record { at = λ s h. h }

module _ (fuel : ℕ) (pk : PublicKey) (can_mesh : Bool) (sink : Sink) where
  -- The loop keeps a queue of authentic commands so, on every connection, however it ends.
  read_loop-Keeps :
      (rounds : ℕ)
      → Keeps (Queued (IsAuthentic pk can_mesh sink)) (read_loop fuel rounds pk can_mesh sink)
  unfolding read_loop
  read_loop-Keeps zero = Keeps-lift stuck
  read_loop-Keeps (suc rounds) = Keeps-bind _ _ (Keeps-next fuel) λ m.
      Keeps-bind _ _ (Keeps-on_message _ pk can_mesh sink Keeps-submit m.ty m)
        (λ _. read_loop-Keeps rounds)

-- Whatever bytes a client sends, in whatever pieces, and however its read loop ends, every
-- command that the loop queues carries the client's own key as the source of a packet, subscribes
-- the client itself and only if it may mesh, and announces peers behind its own channel only.
pub read_loop-IsAuthentic :
    (fuel rounds : ℕ) (pk : PublicKey) (can_mesh : Bool) (sink : Sink) (connection : DerpReader)
    (alive : Bool)
    → All
        (IsAuthentic pk can_mesh sink)
        (read_loop fuel rounds pk can_mesh sink
          (record { connection = connection; queued = []; service_alive = alive })).1.queued
read_loop-IsAuthentic fuel rounds pk can_mesh sink connection alive =
    (read_loop-Keeps fuel pk can_mesh sink rounds).at
      (record { connection = connection; queued = []; service_alive = alive }) tt
