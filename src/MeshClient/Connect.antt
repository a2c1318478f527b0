-- ===== src/MeshClient/Connect.antt =====
-- `connect_http` of dersp/src/mesh_client.rs, and the reader that `MeshClient::run` makes of what it
-- returns.
use dersp.Prelude.{
  ℕ, ◌-◌, ◌≤◌, ◌≡◌, sym, false, ◌&&◌, Option, none, some, List, [], ◌∷◌, ◌++◌, append_assoc, length,
  take, drop, replicate, length-append, take-append, drop-append, arith, leb, le→leb, if◌then◌else◌,
}
use dersp.Exec.{Outcome, ok, err, panic, stuck, Exec, lift, ◌>>=◌, ◌>>◌}
use dersp.Failure.{Failure, http_failed}
use dersp.Net.{Stream, Writer, received, write_all, pending}
use dersp.InOut.{DerpReader, new_reader}
use dersp.Proto.Messages.Written.{appended}
use dersp.Proto.Handshake.Server.{Connection, read_array, on_writer}
use dersp.Proto.Handshake.Accept.{connection, padded, read_array_lem}

-- `GET /derp HTTP/1.1`, the headers `Connection: Upgrade` and `Upgrade: WebSocket`, and the beginning
-- of the header `User-Agent`.
abbrev request_head : List ℕ
request_head =
    71 ∷ 69 ∷ 84 ∷ 32 ∷ 47 ∷ 100 ∷ 101 ∷ 114 ∷ 112 ∷ 32 ∷ 72 ∷ 84 ∷ 84 ∷ 80 ∷ 47 ∷ 49 ∷ 46 ∷ 49 ∷ 13
    ∷ 10 ∷ 67 ∷ 111 ∷ 110 ∷ 110 ∷ 101 ∷ 99 ∷ 116 ∷ 105 ∷ 111 ∷ 110 ∷ 58 ∷ 32 ∷ 85 ∷ 112 ∷ 103 ∷ 114
    ∷ 97 ∷ 100 ∷ 101 ∷ 13 ∷ 10 ∷ 85 ∷ 112 ∷ 103 ∷ 114 ∷ 97 ∷ 100 ∷ 101 ∷ 58 ∷ 32 ∷ 87 ∷ 101 ∷ 98
    ∷ 83 ∷ 111 ∷ 99 ∷ 107 ∷ 101 ∷ 116 ∷ 13 ∷ 10 ∷ 85 ∷ 115 ∷ 101 ∷ 114 ∷ 45 ∷ 65 ∷ 103 ∷ 101 ∷ 110
    ∷ 116 ∷ 58 ∷ 32 ∷ 116 ∷ 101 ∷ 108 ∷ 105 ∷ 111 ∷ 47 ∷ []

-- The request, with the package's version and the name of the operating system.
abbrev pub upgrade_request : List ℕ → List ℕ → List ℕ
upgrade_request version os = request_head ++ (version ++ (32 ∷ os) ++ (13 ∷ 10 ∷ 13 ∷ 10 ∷ []))

abbrev response_size : ℕ
response_size = 65535

-- `data.get(res_len..data_len).ok_or_else(…)?.to_vec()`
unfoldable get_range : ℕ → ℕ → List ℕ → Outcome Failure (List ℕ)
get_range from to bytes =
    if leb from to && leb to (length bytes) then ok (drop from (take to bytes)) else err http_failed

-- `match res.parse(&data)?`: the length of a complete response.
unfoldable response_length : Outcome Failure (Option ℕ) → Outcome Failure ℕ
response_length (ok (some n)) = ok n
response_length (ok none) = err http_failed
response_length (err e) = err http_failed
response_length panic = panic
response_length stuck = stuck

-- `connect_http`, with `httparse::Response::parse`.
unfoldable pub connect_http :
    (List ℕ → Outcome Failure (Option ℕ)) → List ℕ → List ℕ → Exec Failure Connection (List ℕ)
unfolding response_length get_range
connect_http parse_response version os = do
  on_writer (write_all (upgrade_request version os))
  (bytes, data_len) ← read_array response_size
  res_len ← lift (response_length (parse_response bytes))
  lift (get_range res_len data_len bytes)

-- `DerpReader::new(Cursor::new(leftovers).chain(r))`
abbrev pub chained_reader : List ℕ → Stream → DerpReader
chained_reader leftovers r = new_reader (received leftovers ∷ r)

get_range-padded :
    (response extra : List ℕ)
    → length (response ++ extra) ≤ response_size
    → get_range
        (length response)
        (length (response ++ extra))
        (padded response_size (response ++ extra))
      ≡ ok extra
unfolding get_range
get_range-padded response extra fits =
    let all = response ++ extra in
    let pad : List ℕ = replicate (response_size - length all) 0 in
    rw (
      le→leb (length response) (length all) (omega (arith, length-append response extra)),
      le→leb (length all) (length (all ++ pad)) (omega (arith, length-append all pad)),
      take-append all pad,
      drop-append response extra,
    )

on_writer-request :
    (bytes : List ℕ) (s : Stream) (w : Writer) (n : ℕ)
    → w.is_broken ≡ false
    → on_writer (write_all bytes) (connection s w n) ≡ (ok tt, connection s (appended w bytes) n)
unfolding on_writer write_all
on_writer-request bytes s w n intact = rw intact

-- On a connection that does not break, if the first read delivers a whole response with some
-- bytes after it, at most 65535 bytes together, then the request is written and no byte after the
-- response is lost: the reader that is made of the leftovers and the connection has exactly these
-- bytes and the later ones to come.
pub connect_http-leftovers :
    (parse_response : List ℕ → Outcome Failure (Option ℕ)) (version os response extra : List ℕ)
    (s : Stream) (w : Writer) (n : ℕ)
    → length (response ++ extra) ≤ response_size
    → parse_response (padded response_size (response ++ extra)) ≡ ok (some (length response))
    → w.is_broken ≡ false
    → (connect_http parse_response version os (connection (received (response ++ extra) ∷ s) w n)
        ≡ (ok extra, connection s (appended w (upgrade_request version os)) n))
      × (response ++ pending (chained_reader extra s).reader
          ≡ pending (received (response ++ extra) ∷ s))
unfolding connect_http response_length
connect_http-leftovers parse_response version os response extra s w n fits whole intact =
    let w' = appended w (upgrade_request version os) in
    (
      rw (
        on_writer-request (upgrade_request version os) (received (response ++ extra) ∷ s) w n
            intact,
        read_array_lem response_size (response ++ extra) s w' n fits,
        whole,
        get_range-padded response extra fits,
      ),
      sym (append_assoc response extra (pending s)),
    )
