-- ===== src/Service/Linking.antt =====
-- What `DerpService::new` (dersp/src/service.rs) makes of the addresses of other relays, while the
-- command loop handles what the links that have started send it.
use dersp.Prelude.{
  ◌≡◌, refl, Bool, true, false, ◌||◌, none, some, List, [], ◌∷◌, ◌∙◌, ap, All, arith, Bool-cases,
  inl, inr, ℕ, subst, sym,
}
use dersp.Exec.{Outcome, ok, err}
use dersp.Failure.{Failure}
use dersp.Crypto.Keys.{PublicKey, key_eq}
use dersp.KeyMap.{KeyMap, insert, contains_key, get}
use dersp.KeyMap.Laws.{get-insert, All-insert}
use dersp.Channel.{Sink, ServiceCommand}
use dersp.Service.State.{World}
use dersp.Service.Commands.{command_loop, add_peer, learn_peer}
use dersp.Service.Routing.{command_loop-packet}
use dersp.MeshClient.Relaying.{IsRelayed}
use dersp.Service.Startup.{Attempt, Round, start_link, add_link, connect_peers, new, new_world}

-- How the loop over the addresses ends: with the first that does not resolve.
abbrev pub resolution : List Round → Outcome Failure (Unit {0})
resolution [] = ok tt
resolution ((Attempt.unresolved e, meanwhile) ∷ rest) = err e
resolution ((Attempt.failed e, meanwhile) ∷ rest) = resolution rest
resolution ((Attempt.linked sink pk, meanwhile) ∷ rest) = resolution rest

-- Whether a relay with a key was linked before the first address that does not resolve.
abbrev pub has_link : PublicKey → List Round → Bool
has_link k [] = false
has_link k ((Attempt.unresolved e, meanwhile) ∷ rest) = false
has_link k ((Attempt.failed e, meanwhile) ∷ rest) = has_link k rest
has_link k ((Attempt.linked sink pk, meanwhile) ∷ rest) = key_eq pk k || has_link k rest

abbrev pub Leads : (Sink → Type 0) → World → Type 0
Leads P w = All (λ entry. P entry.1) w.service.peers_sinks

-- What happens meanwhile takes no key from the mesh, keeps the mesh key, and adds only routes to
-- channels with a property.
pub record Interferes (P : Sink → Type 0) (meanwhile : World → World) : Type 0 where
  pub keeps_mesh :
      (w : World) (k : PublicKey)
      → contains_key k w.service.mesh ≡ true
      → contains_key k (meanwhile w).service.mesh ≡ true
  pub keeps_key : (w : World) → (meanwhile w).service.meshkey ≡ w.service.meshkey
  pub keeps_routes : (w : World) → Leads P w → Leads P (meanwhile w)

contains_key-insert :
    (k j : PublicKey) (sink : Sink) (m : KeyMap Sink)
    → contains_key j (insert k sink m) ≡ (key_eq k j || contains_key j m)
unfolding contains_key
contains_key-insert k j sink m =
    ap (λ o. elim o [ none ↦ false | some v ↦ true ]) (get-insert k j sink m)
    ∙ elim (Bool-cases (key_eq k j)) [ inl same ↦ rw same refl | inr other ↦ rw other refl ]

module _ (P : Sink → Type 0) where
  abbrev IsLinked : List Round → Outcome Failure (Unit {0}) × World → World → PublicKey → Type 0
  IsLinked rounds (r, w') w k =
      (r ≡ resolution rounds)
      × ((contains_key k w.service.mesh || has_link k rounds) ≡ true
          → contains_key k w'.service.mesh ≡ true)
      × Leads P w'
      × (w'.service.meshkey ≡ w.service.meshkey)

  connect_peers_lem :
      (rounds : List Round) (w : World) (k : PublicKey)
      → All (λ round. Interferes P round.1) rounds
      → Leads P w
      → IsLinked rounds (connect_peers rounds w) w k
  unfolding connect_peers
  connect_peers_lem [] w k h routes = (refl, λ e. ground (arith, e), routes, refl)
  connect_peers_lem ((Attempt.unresolved x, f) ∷ rest) w k (now, later) routes = (
    refl,
    λ e. now.keeps_mesh w k (ground (arith, e)),
    now.keeps_routes w routes,
    now.keeps_key w,
  )
  connect_peers_lem ((Attempt.failed x, f) ∷ rest) w k (now, later) routes =
      let (how, mesh, leads, key) =
        connect_peers_lem rest (f w) k later (now.keeps_routes w routes) in
      (how, λ e. mesh (ground (arith, e, now.keeps_mesh w k)), leads, key ∙ now.keeps_key w)
  connect_peers_lem ((Attempt.linked sink pk, f) ∷ rest) w k (now, later) routes =
      let v = start_link sink w in
      let (how, mesh, leads, key) =
        connect_peers_lem rest (add_link sink pk (f v)) k later (now.keeps_routes v routes) in
      (
        how,
        λ e. mesh (
            ground
              (arith, e, now.keeps_mesh v k, contains_key-insert pk k sink (f v).service.mesh)),
        leads,
        key ∙ now.keeps_key v,
      )

  -- One command of those that a link's read loop queues (mesh_read_loop-IsRelayed).
  pub handled-Interferes :
      (sink : Sink) (c : ServiceCommand)
      → IsRelayed sink c
      → P sink
      → Interferes P (λ w. (command_loop (c ∷ []) w).1)
  unfolding command_loop learn_peer add_peer
  handled-Interferes sink ServiceCommand.stop r p = elim r [ ]
  handled-Interferes sink (ServiceCommand.subscribe_for_peer_changes k j) r p = elim r [ ]
  handled-Interferes sink (ServiceCommand.send_packet source target payload) r p = record {
    keeps_mesh = λ w key e.
        ap (λ x. contains_key key x.mesh) (command_loop-packet source target payload w) ∙ e;
    keeps_key = λ w. ap (λ x. x.meshkey) (command_loop-packet source target payload w);
    keeps_routes = λ w routes.
        subst (λ x. All (λ entry. P entry.1) x.peers_sinks)
          (sym (command_loop-packet source target payload w)) routes;
  }
  handled-Interferes sink (ServiceCommand.peer_present k j) r p = record {
    keeps_mesh = λ w key e. e;
    keeps_key = λ w. refl;
    keeps_routes = λ w routes. elim (Bool-cases (contains_key k w.service.peers_sinks)) [
      | inl known ↦ rw known routes
      | inr vacant ↦
          rw vacant
            (All-insert (λ entry. P entry.1) k j w.service.peers_sinks (subst P (sym r) p) routes)
    ];
  }

  -- With a mesh key, while the tasks that are already spawned take no key from the mesh, keep the
  -- mesh key and add only routes to channels with some property: DerpService::new ends with the
  -- error of the first address that does not resolve, or well, and passes over a link that does
  -- not start; every relay that was linked before that is in the mesh; every route leads to a
  -- channel with the property, so it adds none itself; and the mesh key is kept.
  pub new-links :
      (key : List ℕ) (rounds : List Round) (w : World) (k : PublicKey)
      → All (λ round. Interferes P round.1) rounds
      → ((new (some key) rounds w).0 ≡ resolution rounds)
        × (has_link k rounds ≡ true
            → contains_key k (new (some key) rounds w).1.service.mesh ≡ true)
        × Leads P (new (some key) rounds w).1
        × ((new (some key) rounds w).1.service.meshkey ≡ some key)
  unfolding new contains_key get
  new-links key rounds w k h = connect_peers_lem rounds (new_world (some key)) k h tt
