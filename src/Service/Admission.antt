-- ===== src/Service/Admission.antt =====
-- `add_new_client` of dersp/src/service.rs on every branch.
use dersp.Prelude.{
  ℕ, ◌≡◌, ◌≢◌, ◌↔◌, refl, sym, ap, Bool, true, Option, none, some, List, [], ◌∷◌, ◌++◌, bytes_eq,
  bytes_eq_iff, Bool-cases, inl, inr, if◌then◌else◌, ◌==◌, ◌⊎◌, ◌||◌, false,
}
use dersp.Exec.{ok, err}
use dersp.Failure.{mesh_refused, Failure, io_failed}
use dersp.Crypto.Keys.{PublicKey, key_eq}
use dersp.KeyMap.{get, insert}
use dersp.KeyMap.Laws.{get-insert}
use dersp.Channel.{Sink}
use dersp.Service.State.{World}
use dersp.Service.Clients.{authorize, mesh_notifications, add_new_client}

-- A client may mesh exactly if both sides have a mesh key and the keys are equal.
pub authorize_iff :
    (server client : Option (List ℕ))
    → (authorize server client ≡ ok true)
      ↔ ((key : List ℕ) × (server ≡ some key) × (client ≡ some key))
unfolding authorize
authorize_iff none none = (λ h. cc, λ h. cc (h.1))
authorize_iff none (some c) = (λ h. cc, λ h. cc (h.1))
authorize_iff (some s) none = (λ h. cc, λ h. cc (h.2))
authorize_iff (some s) (some c) = (
  λ h. elim (Bool-cases (bytes_eq s c)) [
    | inl same ↦ (s, refl, ap some (sym ((bytes_eq_iff s c).0 same)))
    | inr other ↦ let refused : err mesh_refused ≡ ok true = rw other at h in cc refused
  ],
  λ (key, p, q). let same : s ≡ c = cc (p, q) in rw ((bytes_eq_iff s c).1 same),
)

refused :
    (server : Option (List ℕ)) (key : List ℕ)
    → server ≢ some key
    → authorize server (some key) ≡ err mesh_refused
unfolding authorize
refused none key other = refl
refused (some s) key other = elim (Bool-cases (bytes_eq s key)) [
  | inl same ↦ absurd (other (ap some ((bytes_eq_iff s key).0 same)))
  | inr e ↦ rw e
]

-- A client with a mesh key that is not the server's is refused, and the service stays as it was.
pub add_new_client-refuses :
    (has_peer_addr : Bool) (pk : PublicKey) (key : List ℕ) (sink : Sink) (w : World)
    → w.service.meshkey ≢ some key
    → add_new_client has_peer_addr pk (some key) sink w ≡ (err mesh_refused, w)
unfolding add_new_client
add_new_client-refuses has_peer_addr pk key sink w other = rw (refused w.service.meshkey key other)

-- When the mesh keys authorize a client whose socket has a peer address, it gets the route of its
-- key, every other route stays, the mesh, the server's mesh key and what was sent stay, and one
-- spawned task tells each mesh peer of the client.
pub add_new_client-admits :
    (pk : PublicKey) (meshkey : Option (List ℕ)) (can_mesh : Bool) (sink : Sink) (w : World)
    → authorize w.service.meshkey meshkey ≡ ok can_mesh
    → ((add_new_client true pk meshkey sink w).0 ≡ ok can_mesh)
      × ((k : PublicKey)
          → get k (add_new_client true pk meshkey sink w).1.service.peers_sinks
            ≡ (if key_eq pk k then some sink else get k w.service.peers_sinks))
      × ((add_new_client true pk meshkey sink w).1.service.mesh ≡ w.service.mesh)
      × ((add_new_client true pk meshkey sink w).1.tasks
          ≡ w.tasks ++ (mesh_notifications pk w.service.mesh ∷ []))
unfolding add_new_client
add_new_client-admits pk meshkey can_mesh sink w allowed = (
  rw allowed,
  λ k. rw allowed (get-insert pk k sink w.service.peers_sinks),
  rw allowed,
  rw allowed,
)

-- The service with a client that it has admitted.
abbrev pub admitted : PublicKey → Sink → World → World
admitted pk sink w = record w {
  service = record w.service { peers_sinks = insert pk sink w.service.peers_sinks };
  open_sinks = λ s. s == sink || w.open_sinks s;
  tasks = w.tasks ++ (mesh_notifications pk w.service.mesh ∷ []);
}

-- A client that the mesh keys authorize is admitted.
pub add_new_client-done :
    (pk : PublicKey) (meshkey : Option (List ℕ)) (can_mesh : Bool) (sink : Sink) (w : World)
    → authorize w.service.meshkey meshkey ≡ ok can_mesh
    → add_new_client true pk meshkey sink w ≡ (ok can_mesh, admitted pk sink w)
unfolding add_new_client
add_new_client-done pk meshkey can_mesh sink w allowed = rw allowed

authorize-cases :
    (server client : Option (List ℕ))
    → (authorize server client ≡ err mesh_refused)
      ⊎ ((can_mesh : Bool) × (authorize server client ≡ ok can_mesh))
unfolding authorize
authorize-cases none none = inr (false, refl)
authorize-cases none (some c) = inl refl
authorize-cases (some s) none = inr (false, refl)
authorize-cases (some s) (some c) = elim (Bool-cases (bytes_eq s c)) [
  | inl same ↦ inr (true, rw same)
  | inr other ↦ inl (rw other)
]

-- A client is refused and leaves no trace, or it is admitted.
pub add_new_client-cases :
    (has_peer_addr : Bool) (pk : PublicKey) (meshkey : Option (List ℕ)) (sink : Sink) (w : World)
    → ((e : Failure) × (add_new_client has_peer_addr pk meshkey sink w ≡ (err e, w)))
      ⊎ ((can_mesh : Bool) × (authorize w.service.meshkey meshkey ≡ ok can_mesh)
          × (add_new_client has_peer_addr pk meshkey sink w ≡ (ok can_mesh, admitted pk sink w)))
unfolding add_new_client
add_new_client-cases true pk meshkey sink w = elim (authorize-cases w.service.meshkey meshkey) [
  | inl refused ↦ inl (mesh_refused, rw refused)
  | inr (can_mesh, allowed) ↦
      inr (can_mesh, allowed, add_new_client-done pk meshkey can_mesh sink w allowed)
]
add_new_client-cases false pk meshkey sink w = elim (authorize-cases w.service.meshkey meshkey) [
  | inl refused ↦ inl (mesh_refused, rw refused)
  | inr (can_mesh, allowed) ↦ inl (io_failed, rw allowed)
]
