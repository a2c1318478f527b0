-- ===== src/Client/ReadLoop.antt =====
-- `Client::read_loop` of dersp/src/client.rs.
use dersp.Prelude.{ℕ, zero, suc, Bool, true, false, List, [], ◌∷◌, ◌++◌}
use dersp.Exec.{Exec, Outcome, ok, err, panic, stuck, pure, abort, lift, ◌>>=◌, ◌>>◌}
use dersp.Failure.{Failure, decode_failed, send_failed, map_err}
use dersp.Codec.Read.{Decode}
use dersp.Codec.Types.{into_inner}
use dersp.Crypto.Keys.{PublicKey}
use dersp.Channel.{Sink, ServiceCommand}
use dersp.InOut.{DerpReader, Message, get_next_message}
use dersp.Proto.Data.FrameType.{FrameType}
use dersp.Proto.Data.Frames.{decode_frame, decode_send_packet, decode_peer_present}

-- The connection, and the sending end of the service's queue: what was queued, and whether the
-- command loop still receives.
pub record ReadState : Type 0 where
  pub connection : DerpReader
  pub queued : List ServiceCommand
  pub service_alive : Bool

-- `command_sender.send(command).await?`
unfoldable pub submit : ServiceCommand → Exec Failure ReadState (Unit {0})
submit command s = elim s.service_alive [
  | true ↦ (ok tt, record s { queued = s.queued ++ (command ∷ []) })
  | false ↦ (err send_failed, s)
]

-- `.unwrap()` of such a send
unfoldable unwrap_failure : Outcome Failure (Unit {0}) → Outcome Failure (Unit {0})
unwrap_failure (ok t) = ok t
unwrap_failure (err e) = panic
unwrap_failure panic = panic
unwrap_failure stuck = stuck

unfoldable pub submit_or_panic : ServiceCommand → Exec Failure ReadState (Unit {0})
unfolding submit unwrap_failure
submit_or_panic command s = let (r, s') = submit command s in (unwrap_failure r, s')

-- `Frame::<T>::decode(&mut message.buffer.as_slice()).map_err(…)?.inner.into_inner()`
unfoldable pub open_frame : {T : Type 0} → Decode T → Message → Exec Failure ReadState T
open_frame decode message = do
  frame ← lift (map_err decode_failed (decode_frame decode message.buffer).0)
  pure (into_inner frame.inner)

-- The `match message.ty` of the loop; the last arm is a `todo!()`.
unfoldable pub on_message :
    PublicKey → Bool → Sink → FrameType → Message → Exec Failure ReadState (Unit {0})
unfolding submit submit_or_panic open_frame
on_message pk can_mesh our_sink FrameType.send_packet message = do
  packet ← open_frame decode_send_packet message
  submit (ServiceCommand.send_packet pk packet.target packet.payload)
on_message pk true our_sink FrameType.watch_conns message =
    submit (ServiceCommand.subscribe_for_peer_changes pk our_sink)
on_message pk false our_sink FrameType.watch_conns message = pure tt
on_message pk can_mesh our_sink FrameType.peer_present message = do
  peer ← open_frame decode_peer_present message
  submit_or_panic (ServiceCommand.peer_present peer.public_key our_sink)
on_message pk can_mesh our_sink _ message = abort

-- `derp_reader.get_next_message().await?`
unfoldable pub next : ℕ → Exec Failure ReadState Message
next fuel s =
    let (r, connection') = get_next_message fuel s.connection in
    (r, record s { connection = connection' })

-- The `loop`. It never returns `Ok`: `rounds` bounds its rounds, and `fuel` the reads of each.
unfoldable pub read_loop : ℕ → ℕ → PublicKey → Bool → Sink → Exec Failure ReadState (Unit {0})
unfolding next on_message
read_loop fuel zero pk can_mesh our_sink = lift stuck
read_loop fuel (suc rounds) pk can_mesh our_sink = do
  message ← next fuel
  on_message pk can_mesh our_sink message.ty message
  read_loop fuel rounds pk can_mesh our_sink
