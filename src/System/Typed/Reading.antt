-- ===== src/System/Typed/Reading.antt =====
-- What the read loops of dersp/src/client.rs and dersp/src/mesh_client.rs queue is well formed,
-- whatever bytes come.
use dersp.Prelude.{
  ℕ, zero, suc, ◌^◌, ◌<◌, ◌≡◌, Bool, true, false, [], ◌∷◌, ◌++◌, length, length-append, All,
  All-append, arith, ap,
}
use dersp.Exec.{Outcome, ok, err, panic, stuck}
use dersp.Exec.Yields.{Yields, Yields-bind, Yields-lift, Yields-pure, Yields-abort}
use dersp.Failure.{Failure, map_err, decode_failed}
use dersp.Crypto.Keys.{PublicKey, IsKey}
use dersp.Channel.{Sink, ServiceCommand}
use dersp.InOut.{Message, DerpReader}
use dersp.InOut.Clean.{IsClean, IsCleanMessage, Yields-get_next_message}
use dersp.Proto.Data.FrameType.{FrameType}
use dersp.Proto.Data.Frames.{Frame, decode_frame}
use dersp.Proto.Data.Wire.Bodies.{Body, Of, IsBody, IsFrame, decode_body, wire_body}
use dersp.Proto.Data.Wire.Exact.{frame_reencodes}
use dersp.System.Typed.{IsTyped}
use dersp.Client.ReadLoop.{
  ReadState, submit, submit_or_panic, open_frame, on_message, next, read_loop,
}
use dersp.MeshClient.Loops.{on_mesh_message, mesh_read_loop}

-- The connection carries bytes, and every command of the queue is typed.
abbrev pub IsTypedState : ReadState → Type 0
IsTypedState s = IsClean s.connection × All IsTyped s.queued

abbrev Done : Unit {0} → Type 0
Done t = Unit {0}

Yields-submit : (c : ServiceCommand) → IsTyped c → Yields IsTypedState Done (submit c)
unfolding submit
Yields-submit c h = record {
  at = λ s i. (grind (arith, i, All-append IsTyped s.queued (c ∷ []) i.1 (h, tt)), λ a e. tt);
}

Yields-submit_or_panic :
    (c : ServiceCommand) → IsTyped c → Yields IsTypedState Done (submit_or_panic c)
unfolding submit_or_panic
Yields-submit_or_panic c h = record { at = λ s i. (((Yields-submit c h).at s i).0, λ a e. tt) }

map_err-ok : {E A : Type 0} (f : Failure) (r : Outcome E A) (a : A) → map_err f r ≡ ok a → r ≡ ok a
map_err-ok f (ok b) a e = let same : b ≡ a = cc e in ap ok same
map_err-ok f (err x) a e = absurd (cc e)
map_err-ok f panic a e = absurd (cc e)
map_err-ok f stuck a e = absurd (cc e)

-- The contents of a frame whose bytes leave room for a size.
abbrev Fits : (k : Body) → Of k → Type 0
Fits k x = IsBody k x × (length (wire_body k x) < 2 ^ 32)

Yields-open_frame :
    (k : Body) (m : Message)
    → IsCleanMessage m
    → Yields IsTypedState (Fits k) (open_frame (decode_body k) m)
unfolding open_frame
Yields-open_frame k m h =
    Yields-bind (λ f. IsFrame k f) _ _ (Yields-lift _ opened) λ f is. Yields-pure _ (is.0, is.2)
  where
    opened :
        (f : Frame (Of k))
        → map_err decode_failed (decode_frame (decode_body k) m.buffer).0 ≡ ok f
        → IsFrame k f
    opened f e =
        let p = decode_frame (decode_body k) m.buffer in
        let read : p ≡ (ok f, p.1) = ap (λ r. (r, p.1)) (map_err-ok decode_failed p.0 f e) in
        (frame_reencodes k m.buffer f p.1 h read).0

Yields-next : (fuel : ℕ) → Yields IsTypedState IsCleanMessage (next fuel)
unfolding next
Yields-next fuel = record {
  at = λ s (clean, queued).
      let (clean', message) = (Yields-get_next_message fuel).at s.connection clean in
      ((clean', queued), message);
}

pub Yields-on_message :
    (pk : PublicKey) (can_mesh : Bool) (sink : Sink) (ty : FrameType) (m : Message)
    → IsKey pk
    → IsCleanMessage m
    → Yields IsTypedState Done (on_message pk can_mesh sink ty m)
unfolding on_message
Yields-on_message pk can_mesh sink FrameType.send_packet m hk h =
    Yields-bind (Fits Body.send_packet) _ _ (Yields-open_frame Body.send_packet m h)
      λ p (ht, small).
        Yields-submit _
          (hk, ht, omega (arith, small, ht.size, length-append p.target.bytes p.payload))
Yields-on_message pk true sink FrameType.watch_conns m hk h = Yields-submit _ hk
Yields-on_message pk false sink FrameType.watch_conns m hk h = Yields-pure tt tt
Yields-on_message pk can_mesh sink FrameType.peer_present m hk h =
    Yields-bind (Fits Body.peer_present) _ _ (Yields-open_frame Body.peer_present m h)
      λ p (ht, small). Yields-submit_or_panic _ ht
Yields-on_message pk can_mesh sink _ m hk h = Yields-abort

pub Yields-on_mesh_message :
    (sink : Sink) (ty : FrameType) (m : Message)
    → IsCleanMessage m
    → Yields IsTypedState Done (on_mesh_message sink ty m)
unfolding on_mesh_message
Yields-on_mesh_message sink FrameType.peer_present m h =
    Yields-bind (Fits Body.peer_present) _ _ (Yields-open_frame Body.peer_present m h)
      λ p (ht, small). Yields-submit_or_panic _ ht
Yields-on_mesh_message sink FrameType.forward_packet m h =
    Yields-bind (Fits Body.forward_packet) _ _ (Yields-open_frame Body.forward_packet m h)
      λ p (keys, small). Yields-submit _ (
        keys.0,
        keys.1,
        omega (
          arith,
          small,
          keys.1.size,
          length-append (p.source.bytes ++ p.target.bytes) p.payload,
          length-append p.source.bytes p.target.bytes,
        ),
      )
Yields-on_mesh_message sink _ m h = Yields-abort

module _ (fuel : ℕ) (sink : Sink) where
  Yields-read_loop :
      (rounds : ℕ) (pk : PublicKey) (can_mesh : Bool)
      → IsKey pk
      → Yields IsTypedState Done (read_loop fuel rounds pk can_mesh sink)
  unfolding read_loop
  Yields-read_loop zero pk can_mesh hk = Yields-lift stuck (λ a e. tt)
  Yields-read_loop (suc rounds) pk can_mesh hk =
      Yields-bind IsCleanMessage _ _ (Yields-next fuel) λ m h.
        Yields-bind Done _ _ (Yields-on_message pk can_mesh sink m.ty m hk h)
          λ t d. Yields-read_loop rounds pk can_mesh hk

  Yields-mesh_read_loop : (rounds : ℕ) → Yields IsTypedState Done (mesh_read_loop fuel rounds sink)
  unfolding mesh_read_loop
  Yields-mesh_read_loop zero = Yields-lift stuck (λ a e. tt)
  Yields-mesh_read_loop (suc rounds) = Yields-bind IsCleanMessage _ _ (Yields-next fuel) λ m h.
      Yields-bind Done _ _ (Yields-on_mesh_message sink m.ty m h)
        λ t d. Yields-mesh_read_loop rounds

-- On a connection that carries bytes, in whatever pieces, and however the loop ends: every
-- command that a client's read loop with a key of 32 bytes, or a link's read loop, queues has
-- keys of 32 bytes and a payload that leaves room for a key in a frame.
pub read_loops-AreTyped :
    (fuel rounds : ℕ) (pk : PublicKey) (can_mesh : Bool) (sink : Sink) (connection : DerpReader)
    (alive : Bool)
    → IsKey pk
    → IsClean connection
    → All IsTyped
        (read_loop fuel rounds pk can_mesh sink
          (record { connection = connection; queued = []; service_alive = alive })).1.queued
      × All IsTyped
          (mesh_read_loop fuel rounds sink
            (record { connection = connection; queued = []; service_alive = alive })).1.queued
read_loops-AreTyped fuel rounds pk can_mesh sink connection alive hk clean =
    let start : ReadState = record {
      connection = connection;
      queued = [];
      service_alive = alive;
    } in
    (
      ((Yields-read_loop fuel sink rounds pk can_mesh hk).at start (clean, tt)).0.1,
      ((Yields-mesh_read_loop fuel sink rounds).at start (clean, tt)).0.1,
    )
