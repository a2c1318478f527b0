-- ===== src/Client/Running.antt =====
-- `Client::new` and `Client::run` of dersp/src/client.rs: a client's socket and its two tasks.
use dersp.Prelude.{ℕ, true, false, Bool, List, []}
use dersp.Exec.{Outcome, ok, err}
use dersp.Failure.{Failure, io_failed}
use dersp.Net.{Stream, Writer}
use dersp.Crypto.Keys.{PublicKey}
use dersp.Channel.{Sink, WriteLoopCommand, ServiceCommand}
use dersp.InOut.{new_reader}
use dersp.Client.ReadLoop.{read_loop}
use dersp.Client.WriteLoop.{write_loop}

-- `struct Client`, without the address, which is not used.
pub record Client : Type 0 where
  pub r : Stream
  pub w : Writer
  pub pk : PublicKey
  pub can_mesh : Bool

-- `Client::new`, on a socket that has a peer address or has none any more.
unfoldable pub new_client : Bool → Stream → Writer → PublicKey → Bool → Outcome Failure Client
new_client true r w pk can_mesh = ok (record { r = r; w = w; pk = pk; can_mesh = can_mesh })
new_client false r w pk can_mesh = err io_failed

-- The spawned read loop: what it queues for a service that receives or does not. Its error is only
-- logged.
unfoldable pub start_read_loop :
    ℕ → ℕ → Stream → PublicKey → Bool → Bool → Sink → List ServiceCommand
start_read_loop fuel rounds r pk service_alive can_mesh our_sink =
    (read_loop fuel rounds pk can_mesh our_sink
      (record { connection = new_reader r; queued = []; service_alive = service_alive })).1.queued

-- The spawned write loop, on what is sent to its channel: what it has written.
unfoldable pub start_write_loop : Writer → PublicKey → Bool → List WriteLoopCommand → Writer
start_write_loop w pk can_mesh commands = (write_loop pk can_mesh commands w).1

-- `Client::run`: both tasks; `sink` is the channel that it makes.
unfoldable pub run :
    ℕ → ℕ → Bool → Sink → List WriteLoopCommand → Client → List ServiceCommand × Writer
unfolding start_read_loop start_write_loop
run fuel rounds service_alive sink commands client = (
  start_read_loop fuel rounds client.r client.pk service_alive client.can_mesh sink,
  start_write_loop client.w client.pk client.can_mesh commands,
)
