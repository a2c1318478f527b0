-- ===== src/Lib.antt =====
-- A verification library for dersp, a DERP relay in Rust: the workspace's crates `codec` (byte
-- formats), `codec-derive` (its derive macros) and `dersp` (the relay).
--
-- Parts and files. A directory's files are passed on by the file of the same name.
--
--   Prelude, Exec, Failure   shared: Boolean tests on native numbers and list lemmas; the effects of
--                            the Rust code (`Result`, panic, shared `&mut` state); the errors.
--   Codec                    codec/src: Read and Decode are decode.rs, Write and Encode are
--                            encode.rs, Types is lib.rs. A buffer is a list of bytes, a decoder takes
--                            bytes off its front, an encoder is a function of the write buffer's
--                            operations (`WriteBuffer`). Write/Lawful is the interface that both
--                            buffers, `Vec<u8>` and `&mut [u8]`, fill; Laws are the codecs' laws, of
--                            what is encoded (Emits, Sized), of its decoding (Reads), and of any bytes
--                            (Safe, and Exact for what a decoder that succeeds has taken).
--   Derive                   codec-derive/src: the macros as functions from a syntax tree (Syntax) to
--                            the code that they quote: Attr is attr.rs, Decode and Encode are the two
--                            halves of lib.rs. Meaning and Decoding run that
--                            code, where the compiler takes it. Accepts (with Plain) is about the errors;
--                            Parts, Places and RoundTrip are about the codecs of a struct,
--                            Variants and Enums about those of a tagged enum.
--   Crypto                   dersp/src/crypto.rs: the keys, their codecs (Keys), the clamping of
--                            secret keys (Clamp), and keys as text (Text) and bytes (Bytes).
--   Proto/Data               dersp/src/proto/data.rs: the frames. The codecs that the derive macros
--                            expand to are written out; Proto/Data/Derived has the types as the
--                            macros' input. Wire is the format, with Bodies as the family of all
--                            the structs that stand inside a frame.
--   Proto/Messages           dersp/src/proto/mod.rs: the functions that write one frame.
--   Proto/ClientInfo         dersp/src/proto/data.rs: sealing and opening a client info.
--   Proto/Handshake          dersp/src/proto/mod.rs: Server and Client are the two sides, Exchange and
--                            Accept and Info what each does, Agreement both together.
--   Net                      a socket as the program sees it: the chunks that `read` delivers.
--   InOut                    dersp/src/inout.rs: cutting the bytes read into messages, by the format of
--                            frames (Framing, Parsing) and however reads cut them (Chunks).
--   Channel, KeyMap          tokio's channels by number, and `HashMap<PublicKey, _>`.
--   Client                   dersp/src/client.rs: the read loop, which turns frames into commands for
--                            the service, and the write loop, which turns messages into frames.
--   Service                  dersp/src/service.rs: the start (Startup), the clients' connections
--                            (Serving) and admission (Clients), and the command loop (Commands). Joining
--                            and Vouching are about who is admitted.
--   MeshClient               dersp/src/mesh_client.rs: the HTTP phase (Connect), the opening
--                            (Running) and the two loops (Loops) of a link to another relay.
--   System                   the service, its clients and its links together, a step at a time: Steps is
--                            the step relation, Grants what may be sent to whom, Handling and
--                            Preserved the invariant; Presence and Outage are what follows from it. Typed is
--                            about the sizes of keys and payloads, from the bytes read to what is sent.
--   EndToEnd                 a packet's way from a client through the service to another client, and,
--                            in Crossing, to a client of another relay.
--   Examples                 concrete runs.
--
-- State. A `&mut` argument or a shared object is threaded through `Exec`, so what was written before
-- an error stays written. A panic (`unwrap`, `panic!`, `todo!`) is the outcome `panic`. What the
-- service's tasks still have to send is kept in `World.tasks`.
--
-- Fuel. `decode_vec` runs with as much fuel as the buffer has bytes: a round that takes none would
-- not end in the program either. `get_next_message` has fuel for its reads, and `reads_left` of the
-- stream is enough for a frame that is there. `read_loop` has no way to return `Ok`, so its rounds
-- are a bound on the run that is looked at. Fuel that runs out is the outcome `stuck`.
--
-- Machine integers. `u8`, `u16`, `u32` are natural numbers below 256 ^ width where a theorem needs
-- it, `to_be_bytes` takes each digit modulo 256, and `usize` is 64 bits wide.
--
-- Other crates. `Sealing` (crypto_box), the JSON parser and the HTTP parser are parameters of the
-- handshake (`Services`) and of `connect_http`, and base64 and hexadecimal of the keys' text
-- (`TextCodecs`); `IsSealing`, `ReadsJson` and `IsTextCodecs` state what their documentation promises.
--
-- Interleaving. A step of `System` is one command of the queue, the send of a packet whose channel
-- the command loop has looked up (it holds no lock while it awaits room in the channel), one message
-- of a client or a link, one message of a spawned task, an admission, a link's start or its entry
-- into the mesh, or the end of a write loop, in any order. The program's channels hold one message,
-- which allows fewer orders. A read loop that has failed may still take steps here. Channels are
-- numbered as they are made. `DerpService::new` has in each round what the tasks that run by then do
-- to the shared state.
--
-- Not modelled: the sockets themselves and the start of the process (main.rs), the parsing of its
-- command line, and logging. What happens to a task that panics is not followed further.
pub mod Prelude
pub mod Exec
pub mod Codec
pub mod Crypto
pub mod Failure
pub mod Net
pub mod Proto
pub mod InOut
pub mod KeyMap
pub mod Channel
pub mod Service
pub mod Client
pub mod MeshClient
pub mod System
pub mod EndToEnd
pub mod Derive
pub mod Examples
