-- ===== src/Failure.antt =====
-- The errors that the `dersp` crate reports through `anyhow::Error`, by their causes.
use dersp.Exec.{Outcome, ok, err, panic, stuck}
use dersp.Proto.Data.FrameType.{FrameType}

pub data Failure : Type 0 where
  -- `anyhow!("Decode error")`
  decode_failed : Failure
  -- the socket's error
  io_failed : Failure
  -- the receiver of a channel is gone
  send_failed : Failure
  unexpected_message : FrameType → Failure
  invalid_magic : Failure
  -- the encryption, the decryption or the JSON of a client info
  client_info_failed : Failure
  -- the HTTP phase of a handshake
  http_failed : Failure
  -- `add_new_client` refuses the mesh key
  mesh_refused : Failure

-- `.map_err(|_| …)`
abbrev pub map_err {ℓ κ ι} : {E : Type ℓ} {F : Type κ} {A : Type ι} → F → Outcome E A → Outcome F A
map_err f (ok a) = ok a
map_err f (err e) = err f
map_err f panic = panic
map_err f stuck = stuck
