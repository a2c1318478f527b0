-- ===== src/Proto/Data/Wire/Exact.antt =====
-- The frame decoders of dersp/src/proto/data.rs where they succeed: what the bytes they took were.
use dersp.Prelude.{
  ℕ, ◌≡◌, refl, sym, ap, subst, ◌∙◌, List, [], ◌∷◌, ◌++◌, append_assoc, length, ◌-◌, arith,
  length-append, ◌<◌, ◌^◌,
}
use dersp.Exec.{pure, ◌>>=◌, ok}
use dersp.Codec.Decode.{decode_u8, decode_u32, decode_array, decode_size_wrapper}
use dersp.Codec.Laws.Exact.{IsExact, IsExact-bind, IsExact-map, IsExact-array, HoldsArray, AreBytes}
use dersp.Codec.Laws.Exact.Numbers.{IsExact-u8, IsExact-bytes}
use dersp.Codec.Laws.Exact.Sized.{HoldsSized, IsExact-size_wrapper}
use dersp.Crypto.Keys.{PublicKey, IsKey, IsArray, decode_public_key}
use dersp.Proto.Data.FrameType.{tag, from_tag, decode_frame_type}
use dersp.Proto.Data.Frames.{
  Frame, encode_frame, decode_frame, decode_bytes_vec, ServerKey, decode_server_key, ClientInfo,
  decode_client_info, decode_server_info, SendPacket, decode_send_packet, RecvPacket,
  decode_recv_packet, ForwardPacket, decode_forward_packet, decode_peer_present, decode_watch_conns,
}
use dersp.Proto.Data.Wire.Bodies.{
  Body, Of, IsBody, encode_body, decode_body, wire_body, IsFrame, Emits-body,
}
use dersp.Codec.Write.{vec_buffer}
use dersp.Codec.Write.VecLaws.{vec_lawful}
use dersp.Proto.Data.Wire.RoundTrip.{IsCanonical, wire_frame, tag-from_tag}

-- A key holds its bytes, of which there are 32.
HoldsKey : PublicKey → List ℕ → Type 0
HoldsKey k xs = (xs ≡ k.bytes) × IsKey k

IsExact-key : IsExact HoldsKey decode_public_key
unfolding decode_public_key HoldsKey
IsExact-key = IsExact-map (HoldsArray 32) _ (decode_array 32) _ (IsExact-array 32) λ a xs h. h

IsExact-frame_type : IsExact (λ ty xs. (xs ≡ tag ty ∷ []) × IsCanonical ty) decode_frame_type
unfolding decode_frame_type
IsExact-frame_type =
    IsExact-map (λ b xs. xs ≡ b ∷ []) _ decode_u8 from_tag IsExact-u8
      λ t xs e. (e ∙ ap (λ b. b ∷ []) (sym (tag-from_tag t)), ap from_tag (tag-from_tag t))

-- The value has its type's form, and its bytes are these.
abbrev HoldsBody : (k : Body) → Of k → List ℕ → Type 0
HoldsBody k x xs = IsBody k x × (xs ≡ wire_body k x)

-- A struct of bytes without a meaning, and one whose last field is such.
IsExact-last :
    {T : Type 0} (make : List ℕ → T)
    → IsExact (λ t xs. t ≡ make xs) (decode_bytes_vec >>= λ b. pure (make b))
IsExact-last make =
    IsExact-map (λ b xs. xs ≡ b) _ decode_bytes_vec make IsExact-bytes λ b xs e. ap make (sym e)

IsExact-server_info : IsExact (HoldsBody Body.server_info) decode_server_info
unfolding decode_server_info
IsExact-server_info =
    IsExact-map (λ b xs. xs ≡ b) _ decode_bytes_vec _ IsExact-bytes λ b xs e. (tt, e)

IsExact-watch_conns : IsExact (HoldsBody Body.watch_conns) decode_watch_conns
unfolding decode_watch_conns
IsExact-watch_conns =
    IsExact-map (λ b xs. xs ≡ b) _ decode_bytes_vec _ IsExact-bytes λ b xs e. (tt, e)

IsExact-peer_present : IsExact (HoldsBody Body.peer_present) decode_peer_present
unfolding decode_peer_present HoldsKey
IsExact-peer_present =
    IsExact-map HoldsKey _ decode_public_key _ IsExact-key λ k xs (e, hk). (hk, e)

IsExact-send_packet : IsExact (HoldsBody Body.send_packet) decode_send_packet
unfolding decode_send_packet HoldsKey
IsExact-send_packet =
    IsExact-bind HoldsKey (λ k (p : SendPacket) ys. p ≡ record { target = k; payload = ys }) _
      decode_public_key _ IsExact-key (λ k. IsExact-last _)
      λ k p xs ys (e, hk) same.
        let ok_key : IsKey p.target = subst (λ (q : SendPacket). IsKey q.target) (sym same) hk in
        (ok_key, (rw (e, same) refl))

IsExact-recv_packet : IsExact (HoldsBody Body.recv_packet) decode_recv_packet
unfolding decode_recv_packet HoldsKey
IsExact-recv_packet =
    IsExact-bind HoldsKey (λ k (p : RecvPacket) ys. p ≡ record { target = k; payload = ys }) _
      decode_public_key _ IsExact-key (λ k. IsExact-last _)
      λ k p xs ys (e, hk) same.
        let ok_key : IsKey p.target = subst (λ (q : RecvPacket). IsKey q.target) (sym same) hk in
        (ok_key, (rw (e, same) refl))

IsExact-server_key : IsExact (HoldsBody Body.server_key) decode_server_key
unfolding decode_server_key HoldsKey
IsExact-server_key =
    IsExact-bind (HoldsArray 8)
      (λ magic (s : ServerKey) ys.
        (s.magic ≡ magic) × (ys ≡ s.public_key.bytes) × IsKey s.public_key)
      _ (decode_array 8) _ (IsExact-array 8)
      (λ magic. IsExact-map HoldsKey _ decode_public_key _ IsExact-key λ k xs h. (refl, h.0, h.1))
      λ magic s xs ys (e, h) (same, e', hk).
        let hm : IsArray 8 s.magic = subst (IsArray 8) (sym same) h in
        ((hm, hk), (rw (e, e', same) refl))

IsExact-client_info : IsExact (HoldsBody Body.client_info) decode_client_info
unfolding decode_client_info HoldsKey
IsExact-client_info =
    IsExact-bind HoldsKey
      (λ k (c : ClientInfo) ys.
        (c.public_key ≡ k) × (ys ≡ c.nonce ++ c.cipher_text) × IsArray 24 c.nonce)
      _ decode_public_key _ IsExact-key
      (λ k.
        IsExact-bind (HoldsArray 24)
          (λ n (c : ClientInfo) ys. c ≡ record { public_key = k; nonce = n; cipher_text = ys }) _
          (decode_array 24) _ (IsExact-array 24) (λ n. IsExact-last _)
          λ n c xs ys (e, h) same. (
            rw same refl,
            rw (e, same) refl,
            subst (λ (r : ClientInfo). IsArray 24 r.nonce) (sym same) h,
          ))
      λ k c xs ys (e, hk) (same, e', hn).
        let h : IsKey c.public_key = subst IsKey (sym same) hk in
        ((h, hn), (rw (e, e', same) (sym (append_assoc k.bytes c.nonce c.cipher_text))))

IsExact-forward_packet : IsExact (HoldsBody Body.forward_packet) decode_forward_packet
unfolding decode_forward_packet HoldsKey
IsExact-forward_packet =
    IsExact-bind HoldsKey
      (λ k (p : ForwardPacket) ys.
        (p.source ≡ k) × (ys ≡ p.target.bytes ++ p.payload) × IsKey p.target)
      _ decode_public_key _ IsExact-key
      (λ k.
        IsExact-bind HoldsKey
          (λ t (p : ForwardPacket) ys. p ≡ record { source = k; target = t; payload = ys }) _
          decode_public_key _ IsExact-key (λ t. IsExact-last _)
          λ t p xs ys (e, h) same. (
            rw same refl,
            rw (e, same) refl,
            subst (λ (r : ForwardPacket). IsKey r.target) (sym same) h,
          ))
      λ k p xs ys (e, hk) (same, e', ht).
        let h : IsKey p.source = subst IsKey (sym same) hk in
        ((h, ht), (rw (e, e', same) (sym (append_assoc k.bytes p.target.bytes p.payload))))

IsExact-body : (k : Body) → IsExact (HoldsBody k) (decode_body k)
IsExact-body Body.server_key = IsExact-server_key
IsExact-body Body.client_info = IsExact-client_info
IsExact-body Body.server_info = IsExact-server_info
IsExact-body Body.send_packet = IsExact-send_packet
IsExact-body Body.recv_packet = IsExact-recv_packet
IsExact-body Body.forward_packet = IsExact-forward_packet
IsExact-body Body.peer_present = IsExact-peer_present
IsExact-body Body.watch_conns = IsExact-watch_conns

module _ (k : Body) where
  abbrev HoldsFrame : Frame (Of k) → List ℕ → Type 0
  HoldsFrame f xs = IsFrame k f × (xs ≡ wire_frame f.frame_type (wire_body k f.inner.inner))

  IsExact-frame : IsExact HoldsFrame (decode_frame (decode_body k))
  unfolding decode_frame
  IsExact-frame =
      IsExact-bind (λ ty xs. (xs ≡ tag ty ∷ []) × IsCanonical ty)
        (λ ty (f : Frame (Of k)) ys. (f.frame_type ≡ ty) × HoldsSized (HoldsBody k) f.inner ys) _
        decode_frame_type _ IsExact-frame_type
        (λ ty.
          IsExact-map (HoldsSized (HoldsBody k)) _ (decode_size_wrapper decode_u32 (decode_body k))
            _ (IsExact-size_wrapper (HoldsBody k) (decode_body k) (IsExact-body k))
            λ w xs held. (refl, held))
        λ ty f xs ys (e, canonical) (same, (zs, e', small, (is, wire))). (
          (is, subst IsCanonical (sym same) canonical, subst (λ bs. length bs < 2 ^ 32) wire small),
          rw (e, e', wire, same) refl,
        )

  -- For each of the eight structs that stand inside a frame: if any bytes at all decode to a
  -- frame, then its type decodes to itself, its keys, its nonce and its magic have their sizes,
  -- its contents leave room for a four-byte size, and encoding it succeeds and writes exactly the
  -- bytes that the decoder took.
  pub frame_reencodes :
      (s : List ℕ) (f : Frame (Of k)) (rest : List ℕ)
      → AreBytes s
      → decode_frame (decode_body k) s ≡ (ok f, rest)
      → IsFrame k f
        × ((encode_frame (encode_body k) f vec_buffer []).0 ≡ ok (length s - length rest))
        × ((encode_frame (encode_body k) f vec_buffer []).1 ++ rest ≡ s)
  frame_reencodes s f rest hs e =
      let (xs, split, (is, wire)) = IsExact-frame.taken s f rest hs e in
      let size : length xs ≡ length s - length rest =
        omega (arith, ap length split, length-append xs rest) in
      let written : encode_frame (encode_body k) f vec_buffer [] ≡ (ok (length xs), xs) =
        rw wire ((Emits-body k f is).writes vec_buffer vec_lawful [] refl) in
      (is, ap (λ p. p.0) written ∙ ap ok size, ap (λ p. p.1 ++ rest) written ∙ split)
