-- ===== src/Proto/Handshake/Client.antt =====
-- The client's side of the handshake: `exchange_keys` and `read_server_info` of
-- dersp/src/proto/mod.rs.
use dersp.Prelude.{ℕ, Option, List, if◌then◌else◌}
use dersp.Exec.{Outcome, ok, err, Exec, pure, lift, ◌>>=◌, ◌>>◌}
use dersp.Failure.{Failure, unexpected_message, invalid_magic}
use dersp.Net.{Writer}
use dersp.Crypto.Keys.{PublicKey}
use dersp.Crypto.Secret.{SecretKey, Sealing}
use dersp.InOut.{Message, DerpReader, get_next_message}
use dersp.Proto.Data.FrameType.{FrameType}
use dersp.Proto.Data.Frames.{
  ServerKey, ClientInfo, decode_frame, decode_server_key, validate_magic, encode_client_info,
  frame_client_info,
}
use dersp.Proto.ClientInfo.{new_client_info}
use dersp.Proto.Messages.{write_frame, unframe}

-- The reader and the writer of a client's connection.
pub record Session : Type 0 where
  pub reader : DerpReader
  pub writer : Writer

unfoldable pub receive : ℕ → Exec Failure Session Message
receive fuel c =
    let (r, reader') = get_next_message fuel c.reader in (r, record c { reader = reader' })

unfoldable pub transmit : {A : Type 0} → Exec Failure Writer A → Exec Failure Session A
transmit m c = let (r, w) = m c.writer in (r, record c { writer = w })

-- The `match message.ty` of `read_server_key`.
unfoldable pub open_server_key : FrameType → Message → Outcome Failure ServerKey
open_server_key FrameType.server_key message =
    unframe (decode_frame decode_server_key message.buffer).0
open_server_key ty message = err (unexpected_message ty)

-- `validate_magic()?`, and the key.
unfoldable pub validated_key : ServerKey → Outcome Failure PublicKey
validated_key server_key =
    if validate_magic server_key then ok server_key.public_key else err invalid_magic

unfoldable pub read_server_key : ℕ → Exec Failure Session PublicKey
unfolding receive open_server_key validated_key
read_server_key fuel = do
  message ← receive fuel
  server_key ← lift (open_server_key message.ty message)
  lift (validated_key server_key)

unfoldable pub write_client_info : ClientInfo → Exec Failure Session (Unit {0})
unfolding transmit
write_client_info client_info =
    transmit (write_frame encode_client_info (frame_client_info client_info))

-- `message.ty != FrameType::ServerInfo`
unfoldable pub is_server_info : FrameType → Outcome Failure (Unit {0})
is_server_info FrameType.server_info = ok tt
is_server_info ty = err (unexpected_message ty)

unfoldable pub read_server_info : ℕ → Exec Failure Session (Unit {0})
unfolding receive is_server_info
read_server_info fuel = do message ← receive fuel; lift (is_server_info message.ty)

-- `fuel` bounds the reads, and `nonce` is what the random generator returns.
unfoldable pub exchange_keys :
    ℕ → Sealing → SecretKey → Option (List ℕ) → List ℕ → Exec Failure Session PublicKey
unfolding read_server_key write_client_info
exchange_keys fuel box secret_key meshkey nonce = do
  server_key ← read_server_key fuel
  client_info ← lift (new_client_info box secret_key server_key meshkey nonce)
  write_client_info client_info
  pure server_key
