-- ===== src/MeshClient/Running.antt =====
-- `MeshClient::new`, `start` and `run` of dersp/src/mesh_client.rs.
use dersp.Prelude.{ℕ, Bool, Option, none, some, List, [], ◌∷◌, if◌then◌else◌}
use dersp.Exec.{Exec, Outcome, ok, err, panic, stuck, ◌>>=◌, ◌>>◌}
use dersp.Failure.{Failure, io_failed, send_failed}
use dersp.Crypto.Keys.{PublicKey}
use dersp.Crypto.Secret.{SecretKey, Sealing}
use dersp.Channel.{Sink, ServiceCommand}
use dersp.Client.ReadLoop.{ReadState}
use dersp.Proto.Messages.{write_watch_conns}
use dersp.Proto.Handshake.Server.{Connection}
use dersp.Proto.Handshake.Client.{Session, transmit, exchange_keys, read_server_info}
use dersp.MeshClient.Connect.{connect_http, chained_reader}
use dersp.MeshClient.Loops.{mesh_read_loop}
use dersp.Service.Startup.{Attempt}

-- The connection after the HTTP phase, and what was sent to `start`.
pub record Link : Type 0 where
  pub session : Session
  pub told : Option PublicKey

unfoldable on_session : {A : Type 0} → Exec Failure Session A → Exec Failure Link A
on_session m l = let (r, s) = m l.session in (r, record l { session = s })

-- `mesh_peer_pk_sender.send(mesh_peer_pk).map_err(…)?`, which fails if nobody awaits the key.
unfoldable tell : Bool → PublicKey → Exec Failure Link (Unit {0})
tell awaited pk l = if awaited then (ok tt, record l { told = some pk }) else (err send_failed, l)

-- What `run` does between the HTTP phase and its loops.
unfoldable pub greet :
    ℕ → Sealing → SecretKey → List ℕ → List ℕ → Bool → Exec Failure Link (Unit {0})
unfolding on_session tell
greet fuel box secret_key meshkey nonce awaited = do
  mesh_peer_pk ← on_session (exchange_keys fuel box secret_key (some meshkey) nonce)
  tell awaited mesh_peer_pk
  on_session (read_server_info fuel)
  on_session (transmit write_watch_conns)

abbrev pub link_of : List ℕ → Connection → Link
link_of leftovers c = record {
  session = record { reader = chained_reader leftovers c.reader; writer = c.writer };
  told = none;
}

-- `connect_http(…).await?`, and the rest with the leftovers.
unfoldable with_leftovers :
    Outcome Failure (List ℕ)
    → Connection
    → Exec Failure Link (Unit {0})
    → Outcome Failure (Unit {0}) × Link
with_leftovers (ok leftovers) c rest = rest (link_of leftovers c)
with_leftovers (err e) c rest = (err e, link_of [] c)
with_leftovers panic c rest = (panic, link_of [] c)
with_leftovers stuck c rest = (stuck, link_of [] c)

unfoldable pub open_link :
    (List ℕ → Outcome Failure (Option ℕ))
    → List ℕ
    → List ℕ
    → Exec Failure Link (Unit {0})
    → Connection
    → Outcome Failure (Unit {0}) × Link
unfolding with_leftovers
open_link parse_response version os rest c =
    let (r, c') = connect_http parse_response version os c in with_leftovers r c' rest

-- The read loop on what the link has left to read; `queue` is what is queued for the service.
abbrev reading_link : Link → List ServiceCommand → Bool → ReadState
reading_link l queue alive = record {
  connection = l.session.reader;
  queued = queue;
  service_alive = alive;
}

unfoldable pub run_loop :
    ℕ
    → ℕ
    → Sink
    → List ServiceCommand
    → Bool
    → Outcome Failure (Unit {0}) × Link
    → Outcome Failure (Unit {0}) × List ServiceCommand
run_loop fuel rounds sender queue alive (ok t, l) =
    let (r, s) = mesh_read_loop fuel rounds sender (reading_link l queue alive) in (r, s.queued)
run_loop fuel rounds sender queue alive (err e, l) = (err e, queue)
run_loop fuel rounds sender queue alive (panic, l) = (panic, queue)
run_loop fuel rounds sender queue alive (stuck, l) = (stuck, queue)

-- `lookup_host(addr_or_host).await?.next()`
unfoldable pub first_address : {A : Type 0} → Outcome Failure (List A) → Outcome Failure A
first_address (ok (addr ∷ more)) = ok addr
first_address (ok []) = err io_failed
first_address (err e) = err e
first_address panic = panic
first_address stuck = stuck

-- `mesh_peer_pk_receiver.await?`: a link that ends before it tells of the key fails `start`.
unfoldable pub attempt : Sink → Option PublicKey → Attempt
attempt sender (some mesh_peer_pk) = Attempt.linked sender mesh_peer_pk
attempt sender none = Attempt.failed send_failed

-- `MeshClient::new(…).await?` on an address, and `start`.
unfoldable pub attempt_peer :
    {A : Type 0} → Outcome Failure (List A) → Sink → Option PublicKey → Attempt
unfolding first_address attempt
attempt_peer lookup sender told = elim (first_address lookup) [
  | ok addr ↦ attempt sender told
  | err e ↦ Attempt.unresolved e
  | _ ↦ Attempt.unresolved io_failed
]
