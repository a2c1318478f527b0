-- ===== src/Service/Vouching.antt =====
-- Who `handle_client` of dersp/src/service.rs admits, whatever bytes a socket delivers.
use dersp.Prelude.{◌≡◌, ◌⊎◌, refl, ap, Bool, Option, some, List, inl, inr, Option-cases, ℕ, subst}
use dersp.Exec.{Exec, Outcome, ok, err, panic, stuck, continue, lift}
use dersp.Exec.Yields.{Yields, Yields-bind, Yields-lift, Yields-pure}
use dersp.Failure.{Failure, client_info_failed}
use dersp.Crypto.Keys.{PublicKey}
use dersp.Crypto.Secret.{SecretKey}
use dersp.Channel.{Sink}
use dersp.Proto.Data.FrameType.{get_frame_type}
use dersp.Proto.Data.Frames.{ClientInfo}
use dersp.Proto.ClientInfo.{
  ClientInfoPayload, CompleteClientInfo, complete, complete_from, complete_with,
}
use dersp.Proto.Handshake.Server.{
  Connection, Services, mesh_key, handle_handshake, read_array, finalize_http_phase,
  write_server_key, write_server_info, read_client_info, open_client_info,
}
use dersp.Service.State.{World}
use dersp.Service.Clients.{authorize, add_new_client}
use dersp.Service.Admission.{admitted, add_new_client-cases}
use dersp.Service.Serving.{Serving, handle_client, on_socket, on_world}

-- A cipher text opens, under the key and the server's secret, to a text with the mesh key.
abbrev pub IsVouched : Services → SecretKey → PublicKey → Option (List ℕ) → Type 0
IsVouched services sk pk meshkey =
    (nonce : List ℕ) × (cipher_text : List ℕ) × (text : List ℕ) × (payload : ClientInfoPayload)
    × (services.box.decrypt pk sk nonce cipher_text ≡ some text)
    × (services.parse_json text ≡ some payload)
    × (meshkey ≡ mesh_key payload.meshkey)

Yields-any : {S A : Type 0} (m : Exec Failure S A) → Yields (λ _. Unit {0}) (λ _. Unit {0}) m
Yields-any m = record { at = λ s h. (tt, λ a e. tt) }

module _ (services : Services) (sk : SecretKey) where
  abbrev Vouched : PublicKey × Option (List ℕ) → Type 0
  Vouched (pk, meshkey) = IsVouched services sk pk meshkey

  complete-IsVouched :
      (info : ClientInfo) (c : CompleteClientInfo)
      → complete services.box services.parse_json info sk ≡ ok c
      → IsVouched services sk c.public_key (mesh_key c.payload.meshkey)
  unfolding complete complete_from complete_with
  complete-IsVouched info c e =
      elim (Option-cases (services.box.decrypt info.public_key sk info.nonce info.cipher_text)) [
        | inl closed ↦
            let wrong : err client_info_failed ≡ ok c = rw closed at e in absurd (cc wrong)
        | inr (text, opened) ↦ elim (Option-cases (services.parse_json text)) [
          | inl garbled ↦
              let wrong : err client_info_failed ≡ ok c = rw (opened, garbled) at e in
              absurd (cc wrong)
          | inr (payload, parsed) ↦
              let done : CompleteClientInfo = record {
                public_key = info.public_key;
                nonce = info.nonce;
                payload = payload;
              } in
              let fine : ok done ≡ ok c = rw (opened, parsed) at e in
              let same : done ≡ c = cc fine in
              subst
                (λ (d : CompleteClientInfo).
                  IsVouched services sk d.public_key (mesh_key d.payload.meshkey))
                same (info.nonce, info.cipher_text, text, payload, opened, parsed, refl)
        ]
      ]

  Yields-read_client_info : Yields (λ _. Unit {0}) Vouched (read_client_info services sk)
  unfolding read_client_info
  Yields-read_client_info =
      Yields-bind (λ _. Unit {0}) (read_array 1024) _ (Yields-any _)
        λ (buf, n) _.
          Yields-bind (λ _. Unit {0}) (lift (open_client_info (get_frame_type buf) buf)) _
            (Yields-any _)
            λ info _.
              Yields-bind (λ c. IsVouched services sk c.public_key (mesh_key c.payload.meshkey))
                (lift (complete services.box services.parse_json info sk)) _
                (Yields-lift _ (complete-IsVouched info)) λ c vouched. Yields-pure _ vouched

  Yields-handle_handshake : Yields (λ _. Unit {0}) Vouched (handle_handshake services sk)
  unfolding handle_handshake
  Yields-handle_handshake =
      Yields-bind (λ _. Unit {0}) (finalize_http_phase services) _ (Yields-any _)
        λ _ _.
          Yields-bind (λ _. Unit {0}) (write_server_key (services.box.public_of sk)) _
            (Yields-any _)
            λ _ _. Yields-bind Vouched _ _ Yields-read_client_info λ r vouched.
              Yields-bind (λ _. Unit {0}) write_server_info _ (Yields-any _)
                λ _ _. Yields-pure _ vouched

  -- The service is as it was, or has one client more that is vouched for.
  abbrev pub IsServed : Sink → World → World → Type 0
  IsServed sink before after =
      (after ≡ before)
      ⊎ ((pk : PublicKey) × (meshkey : Option (List ℕ)) × (can_mesh : Bool) × IsVouched services sk
            pk meshkey
          × (authorize before.service.meshkey meshkey ≡ ok can_mesh)
          × (after ≡ admitted pk sink before))

  after_handshake :
      (has_peer_addr : Bool) (sink : Sink) (w : World)
      (p : Outcome Failure (PublicKey × Option (List ℕ)) × Connection)
      → ((a : PublicKey × Option (List ℕ)) → p.0 ≡ ok a → Vouched a)
      → IsServed sink w
          (continue p.0
            (λ a. on_world (add_new_client has_peer_addr a.0 a.1 sink))
            (record { socket = p.1; world = w })).1.world
  unfolding on_world
  after_handshake has_peer_addr sink w (ok (pk, meshkey), c) vouched =
      elim (add_new_client-cases has_peer_addr pk meshkey sink w) [
        | inl (e, refused) ↦ inl (ap (λ r. r.1) refused)
        | inr (can_mesh, allowed, done) ↦
            inr (pk, meshkey, can_mesh, vouched (pk, meshkey) refl, allowed, ap (λ r. r.1) done)
      ]
  after_handshake has_peer_addr sink w (err e, c) vouched = inl refl
  after_handshake has_peer_addr sink w (panic, c) vouched = inl refl
  after_handshake has_peer_addr sink w (stuck, c) vouched = inl refl

  -- Whatever bytes a socket delivers, in whatever pieces, and however handle_client ends: either
  -- the service is as it was, or it is the one before with one client more, for whose key and
  -- mesh key there are a nonce and a cipher text that the sealed box opens, under that key and
  -- the server's secret, to a text that parses to the mesh key, and whom the mesh keys authorize.
  pub handle_client-IsServed :
      (has_peer_addr : Bool) (sink : Sink) (s : Serving)
      → IsServed sink s.world (handle_client services sk has_peer_addr sink s).1.world
  unfolding handle_client on_socket
  handle_client-IsServed has_peer_addr sink s =
      after_handshake has_peer_addr sink s.world (handle_handshake services sk s.socket)
        (Yields-handle_handshake.at s.socket tt).1
