-- ===== src/Service/State.antt =====
-- The state of `DerpService` (dersp/src/service.rs) with what its tasks have sent.
use dersp.Prelude.{ℕ, Bool, Option, List, [], ◌∷◌, ◌++◌, if◌then◌else◌, ◌≡◌, arith}
use dersp.Exec.{Exec, ok, err}
use dersp.Failure.{Failure, send_failed}
use dersp.KeyMap.{KeyMap}
use dersp.Channel.{Sink, WriteLoopCommand, Delivery}

-- `struct DerpService`. Its `command_sender` is the queue that `command_loop` reads.
pub record DerpService : Type 0 where
  pub peers_sinks : KeyMap Sink
  pub mesh : KeyMap Sink
  pub meshkey : Option (List ℕ)

-- The service, the channels whose receivers are alive, what was sent so far, and the spawned tasks
-- with the messages that each has still to send.
pub record World : Type 0 where
  pub service : DerpService
  pub open_sinks : Sink → Bool
  pub sent : List Delivery
  pub tasks : List (List Delivery)

-- `sink.send(command).await?`
unfoldable pub send : Sink → WriteLoopCommand → Exec Failure World (Unit {0})
send sink command w =
    if w.open_sinks sink
    then (ok tt, record w { sent = w.sent ++ ((sink, command) ∷ []) })
    else (err send_failed, w)

-- `spawn(async move { for … send … })`; an error in such a task is only logged.
unfoldable pub spawn : List Delivery → Exec Failure World (Unit {0})
spawn deliveries w = (ok tt, record w { tasks = w.tasks ++ (deliveries ∷ []) })

pub send_keeps :
    (sink : Sink) (c : WriteLoopCommand) (w : World) → (send sink c w).1.service ≡ w.service
unfolding send
send_keeps sink c w = ground arith
