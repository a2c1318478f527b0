-- ===== src/MeshClient/Relaying.antt =====
-- What a connection to another relay does to the service, and what it is told (dersp/src/mesh_client.rs).
use dersp.Prelude.{
  ℕ, zero, suc, ◌≡◌, refl, ap, ◌∙◌, Bool, false, List, [], ◌∷◌, ◌++◌, All, sym, append-nil,
}
use dersp.Exec.{panic, stuck}
use dersp.Net.{Writer}
use dersp.Crypto.Keys.{PublicKey, IsKey}
use dersp.Channel.{Sink, WriteLoopCommand, ServiceCommand}
use dersp.InOut.{Message, DerpReader}
use dersp.Proto.Data.FrameType.{FrameType}
use dersp.Proto.Data.Wire.RoundTrip.{wire_frame}
use dersp.Proto.Messages.Written.{appended, appended-append, write_peer_present_lem}
use dersp.Client.Authentic.{
  Keeps, Keeps-bind, Keeps-lift, Keeps-submit, Keeps-submit_or_panic, Keeps-open_frame, Keeps-next,
  Queued,
}
use dersp.Client.ReadLoop.{ReadState, submit}
use dersp.MeshClient.Loops.{on_mesh_message, mesh_read_loop, notify_peer, mesh_write_loop}

-- A command that another relay may cause: any packet, and the presence of peers behind its channel.
abbrev pub IsRelayed : Sink → ServiceCommand → Type 0
IsRelayed sink ServiceCommand.stop = ⊥
IsRelayed sink (ServiceCommand.send_packet source target payload) = Unit {0}
IsRelayed sink (ServiceCommand.subscribe_for_peer_changes k s) = ⊥
IsRelayed sink (ServiceCommand.peer_present k s) = s ≡ sink

-- One frame does what the commands do that the relay may cause.
pub Keeps-on_mesh_message :
    (I : ReadState → Type 0) (sink : Sink)
    → ((c : ServiceCommand) → IsRelayed sink c → Keeps I (submit c))
    → (ty : FrameType) (m : Message) → Keeps I (on_mesh_message sink ty m)
unfolding on_mesh_message
Keeps-on_mesh_message I sink may FrameType.peer_present m =
    Keeps-bind _ _ (Keeps-open_frame _ m) (λ p. Keeps-submit_or_panic _ (may _ refl))
Keeps-on_mesh_message I sink may FrameType.forward_packet m =
    Keeps-bind _ _ (Keeps-open_frame _ m) (λ p. may _ tt)
Keeps-on_mesh_message I sink may _ m = record { at = λ s h. h }

module _ (fuel : ℕ) (sink : Sink) where
  mesh_read_loop-Keeps :
      (rounds : ℕ) → Keeps (Queued (IsRelayed sink)) (mesh_read_loop fuel rounds sink)
  unfolding mesh_read_loop
  mesh_read_loop-Keeps zero = Keeps-lift stuck
  mesh_read_loop-Keeps (suc rounds) = Keeps-bind _ _ (Keeps-next fuel) λ m.
      Keeps-bind _ _ (Keeps-on_mesh_message _ sink Keeps-submit m.ty m)
        (λ _. mesh_read_loop-Keeps rounds)

-- Whatever bytes another relay sends, in whatever pieces, and however the read loop ends, every
-- command that the loop queues is a packet or announces a peer behind the connection's own
-- channel.
pub mesh_read_loop-IsRelayed :
    (fuel rounds : ℕ) (sink : Sink) (connection : DerpReader) (alive : Bool)
    → All
        (IsRelayed sink)
        (mesh_read_loop fuel rounds sink
          (record { connection = connection; queued = []; service_alive = alive })).1.queued
mesh_read_loop-IsRelayed fuel rounds sink connection alive =
    (mesh_read_loop-Keeps fuel sink rounds).at
      (record { connection = connection; queued = []; service_alive = alive }) tt

-- The keys that a queue announces before its first other command.
abbrev leading_peers : List WriteLoopCommand → List PublicKey
leading_peers (WriteLoopCommand.peer_present k ∷ rest) = k ∷ leading_peers rest
leading_peers _ = []

abbrev pub wire_peers : List PublicKey → List ℕ
wire_peers [] = []
wire_peers (k ∷ ks) = wire_frame FrameType.peer_present k.bytes ++ wire_peers ks

-- On a connection that does not break, with keys of 32 bytes, the mesh client's write loop writes
-- a frame for each peer that is announced before the first other command, and then it panics: at
-- that command, or at the end of the channel.
pub mesh_write_loop-leading_peers :
    (commands : List WriteLoopCommand) (w : Writer)
    → All IsKey (leading_peers commands)
    → w.is_broken ≡ false
    → mesh_write_loop commands w ≡ (panic, appended w (wire_peers (leading_peers commands)))
unfolding mesh_write_loop notify_peer
mesh_write_loop-leading_peers [] w h intact =
    ap (λ xs. (panic, record w { written = xs })) (sym (append-nil w.written))
mesh_write_loop-leading_peers (WriteLoopCommand.stop ∷ rest) w h intact =
    ap (λ xs. (panic, record w { written = xs })) (sym (append-nil w.written))
mesh_write_loop-leading_peers (WriteLoopCommand.send_packet source target payload ∷ rest) w h
      intact =
    ap (λ xs. (panic, record w { written = xs })) (sym (append-nil w.written))
mesh_write_loop-leading_peers (WriteLoopCommand.peer_present k ∷ rest) w (now, later) intact =
    let wire = wire_frame FrameType.peer_present k.bytes in
    rw (write_peer_present_lem k w now intact)
      (mesh_write_loop-leading_peers rest (appended w wire) later intact)
    ∙ ap (λ v. (panic, v)) (appended-append w wire (wire_peers (leading_peers rest)))
