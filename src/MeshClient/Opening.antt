-- ===== src/MeshClient/Opening.antt =====
-- How a link to another relay opens, and what the other relay reads
-- (`MeshClient::run` of dersp/src/mesh_client.rs).
use dersp.Prelude.{
  ℕ, ◌<◌, ◌≡◌, refl, true, false, Option, some, List, [], ◌++◌, arith, ap, none, length, ◌≤◌, ◌+◌,
  ◌∷◌,
}
use dersp.Exec.{ok, Outcome}
use dersp.Failure.{Failure}
use dersp.Net.{Stream, Writer, pending, IsSound, reads_left, received}
use dersp.Crypto.Keys.{PublicKey, IsArray}
use dersp.Crypto.Secret.{SecretKey, Sealing, IsSealing}
use dersp.InOut.Chunks.{get_next_message_reads}
use dersp.Proto.Data.FrameType.{FrameType, tag, from_tag}
use dersp.Proto.Data.Wire.RoundTrip.{wire_frame}
use dersp.Proto.Messages.Written.{appended, appended-append, write_watch_conns_lem}
use dersp.Proto.Handshake.Client.{
  receive, is_server_info, read_server_info, transmit, exchange_keys,
}
use dersp.Proto.Handshake.Exchange.{session, greeting, info_bytes, info_of, exchange_keys_lem}
use dersp.Proto.ClientInfo.{plain_text}
use dersp.Proto.Handshake.Accept.{connection, padded}
use dersp.Proto.Handshake.Agreement.{length-plain_text}
use dersp.MeshClient.Connect.{connect_http-leftovers, upgrade_request}
use dersp.MeshClient.Running.{Link, greet, open_link}

read_server_info_lem :
    (fuel : ℕ) (s : Stream) (front rest : List ℕ) (w : Writer)
    → IsSound s
    → reads_left s < fuel
    → front ++ pending s ≡ wire_frame FrameType.server_info [] ++ rest
    → (s' : Stream) × (left : List ℕ) × (read_server_info fuel (session s front w)
        ≡ (ok tt, session s' left w))
      × (left ++ pending s' ≡ rest)
unfolding read_server_info receive is_server_info from_tag tag
read_server_info_lem fuel s front rest w sound enough e =
    let (s', left, run, over, _, _) =
      get_next_message_reads fuel (tag FrameType.server_info) [] rest s front (omega arith) sound
        enough e in
    (s', left, rw run refl, over)

abbrev pub link : Stream → List ℕ → Writer → Option PublicKey → Link
link s front w told = record { session = session s front w; told = told }

-- After the exchange of keys the link is told of, the server's info is read, and the subscription is
-- written.
greet_lem :
    (box : Sealing) (c : SecretKey) (key nonce : List ℕ) (fuel : ℕ) (k : PublicKey) (s0 s : Stream)
    (front0 front rest info : List ℕ) (w : Writer)
    → exchange_keys fuel box c (some key) nonce (session s0 front0 w)
      ≡ (ok k, session s front (appended w info))
    → IsSound s
    → reads_left s < fuel
    → front ++ pending s ≡ wire_frame FrameType.server_info [] ++ rest
    → w.is_broken ≡ false
    → (s' : Stream) × (left : List ℕ) × (greet fuel box c key nonce true (link s0 front0 w none)
        ≡ (ok tt, link s' left (appended w (info ++ wire_frame FrameType.watch_conns [])) (some k)))
      × (left ++ pending s' ≡ rest)
unfolding greet transmit
greet_lem box c key nonce fuel k s0 s front0 front rest info w exchanged sound enough e intact =
    let (s', left, run, over) =
      read_server_info_lem fuel s front rest (appended w info) sound enough e in
    (
      s',
      left,
      rw (exchanged, run, write_watch_conns_lem (appended w info) intact)
          (ap (λ v. (ok tt, link s' left v (some k)))
            (appended-append w info (wire_frame FrameType.watch_conns []))),
      over,
    )

module _ (box : Sealing) (laws : IsSealing box)
    (parse_response : List ℕ → Outcome Failure (Option ℕ)) (version os : List ℕ)
    (peer c : SecretKey) (key nonce : List ℕ) (fuel n : ℕ) (response extra rest : List ℕ)
    (s : Stream) (w : Writer) where
  -- If another relay answers the upgrade request with a whole response in one read, of at most
  -- 65535 bytes with the bytes after it, and then sends its greeting and an empty server info in
  -- whatever pieces, on a connection that does not break: with a mesh key of at most 918 bytes
  -- and more fuel than there are reads left, a link writes the request, a client info whose
  -- cipher text is the sealed mesh key, and a WatchConns frame, tells `start` the relay's key,
  -- and leaves exactly the later bytes for its read loop.
  pub open_link-greets :
      length (response ++ extra) ≤ 65535
      → parse_response (padded 65535 (response ++ extra)) ≡ ok (some (length response))
      → IsArray 24 nonce
      → length key ≤ 918
      → IsSound s
      → length extra + 1 + reads_left s < fuel
      → extra ++ pending s
        ≡ greeting (box.public_of peer) ++ (wire_frame FrameType.server_info [] ++ rest)
      → w.is_broken ≡ false
      → (cipher : List ℕ) × (s' : Stream) × (left : List ℕ) × (box.encrypt
            (box.public_of peer)
            c
            nonce
            (plain_text (some key))
          ≡ some cipher)
        × (open_link parse_response version os
              (greet fuel box c key nonce true)
              (connection (received (response ++ extra) ∷ s) w n)
            ≡ (
              ok tt,
              link s' left
                  (appended w (
                    upgrade_request version os
                    ++ (wire_frame FrameType.client_info
                          (info_bytes (info_of (box.public_of c) nonce cipher))
                        ++ wire_frame FrameType.watch_conns [])))
                  (some (box.public_of peer)),
            ))
        × (left ++ pending s' ≡ rest)
  unfolding open_link
  open_link-greets fits whole random short sound enough greeted intact =
      let size = length-plain_text (some key) in
      let (cipher, sealed, longer) =
        laws.seals (box.public_of peer) c nonce (plain_text (some key))
          (omega (arith, size, short)) in
      let w' = appended w (upgrade_request version os) in
      let info =
        wire_frame FrameType.client_info (info_bytes (info_of (box.public_of c) nonce cipher)) in
      let (connected, _) =
        connect_http-leftovers parse_response version os response extra s w n fits whole intact in
      let (from, over, exchanged, more, sound', fewer) =
        exchange_keys_lem box laws peer c nonce random fuel (some key) cipher (received extra ∷ s)
          [] (wire_frame FrameType.server_info [] ++ rest) w' sealed
          (omega (arith, size, short, longer)) sound enough greeted intact in
      let (s', left, greets, remains) =
        greet_lem box c key nonce fuel (box.public_of peer) (received extra ∷ s) from [] over rest
          info w' exchanged sound' (omega (arith, fewer, enough)) more intact in
      (
        cipher,
        s',
        left,
        sealed,
        rw (connected, greets)
            (ap (λ v. (ok tt, link s' left v (some (box.public_of peer))))
              (appended-append w (upgrade_request version os)
                (info ++ wire_frame FrameType.watch_conns []))),
        remains,
      )
