-- ===== src/System/Presence.antt =====
-- Whom the program tells of its clients, and whose packets it forwards.
use dersp.Prelude.{
  ℕ, ◌≡◌, refl, true, Option, none, some, List, [], ◌∷◌, All, Any, All-map, ◌⊎◌, inl, inr, subst,
  ◌∙◌, ap,
}
use dersp.Exec.{ok}
use dersp.Channel.{Sink, WriteLoopCommand, Delivery}
use dersp.KeyMap.{KeyMap}
use dersp.Service.Clients.{authorize}
use dersp.Service.Admission.{authorize_iff}
use dersp.System.Grants.{IsPermitted, Values}
use dersp.System.Orderly.{grants_of, grants}
use dersp.System.Preserved.{Reach-IsSound}
use dersp.System.Steps.{Admitted, System, Reach, initial}

-- A client behind a channel that presented the server's mesh key.
abbrev pub PresentsKey : Option (List ℕ) → Sink → Admitted → Type 0
PresentsKey meshkey sink c =
    (c.sink ≡ sink) × ((key : List ℕ) × (meshkey ≡ some key) × (c.meshkey ≡ some key))

-- An announcement goes to such a client or to a link; nothing is said of a packet.
abbrev pub IsConfided : Option (List ℕ) → System → Delivery → Type 0
IsConfided meshkey s (sink, WriteLoopCommand.peer_present k) =
    Any (PresentsKey meshkey sink) s.clients ⊎ Any (λ l. l ≡ sink) s.links
IsConfided meshkey s _ = Unit {0}

module _ (meshkey : Option (List ℕ)) where
  may_mesh-PresentsKey :
      (sink : Sink) (clients : List Admitted)
      → All (λ c. authorize meshkey c.meshkey ≡ ok c.can_mesh) clients
      → Any (λ c. (c.sink ≡ sink) × (c.can_mesh ≡ true)) clients
      → Any (PresentsKey meshkey sink) clients
  may_mesh-PresentsKey sink [] h p = elim p [ ]
  may_mesh-PresentsKey sink (c ∷ cs) (now, later) (inl (same, may)) =
      inl (same, (authorize_iff meshkey c.meshkey).0 (now ∙ ap ok may))
  may_mesh-PresentsKey sink (c ∷ cs) (now, later) (inr p) =
      inr (may_mesh-PresentsKey sink cs later p)

  permitted-IsConfided :
      (s : System)
      → All (λ c. authorize meshkey c.meshkey ≡ ok c.can_mesh) s.clients
      → (d : Delivery) → IsPermitted (grants s) d
      → IsConfided meshkey s d
  permitted-IsConfided s h (sink, WriteLoopCommand.send_packet source target payload) p = tt
  permitted-IsConfided s h (sink, WriteLoopCommand.stop) p = tt
  permitted-IsConfided s h (sink, WriteLoopCommand.peer_present k) (inl c) =
      inl (may_mesh-PresentsKey sink s.clients h c)
  permitted-IsConfided s h (sink, WriteLoopCommand.peer_present k) (inr l) = inr l

  -- In every state that the program reaches, whatever the order of its steps, each announcement
  -- of a peer that was sent went to the channel of a link to another relay, or of a client that
  -- presented the server's own mesh key.
  pub sent-IsConfided :
      (s : System) → Reach (initial meshkey) s → All (IsConfided meshkey s) s.world.sent
  sent-IsConfided s r =
      let sound = Reach-IsSound meshkey r in
      All-map (permitted-IsConfided s sound.authorized) s.world.sent sound.world.sent

-- A packet from a client to a client.
abbrev pub IsLocal : List Admitted → Delivery → Type 0
IsLocal clients (sink, WriteLoopCommand.send_packet source target payload) =
    Any (λ c. c.sink ≡ sink) clients × Any (λ c. c.pk ≡ source) clients
IsLocal clients _ = ⊥

without_key :
    (sink : Sink) (clients : List Admitted)
    → All (λ c. authorize none c.meshkey ≡ ok c.can_mesh) clients
    → ¬ (Any (λ c. (c.sink ≡ sink) × (c.can_mesh ≡ true)) clients)
without_key sink clients h p = no_key clients (may_mesh-PresentsKey none sink clients h p)
  where
    no_key : (cs : List Admitted) → ¬ (Any (PresentsKey none sink) cs)
    no_key [] p = p
    no_key (c ∷ cs) (inl (_, (_, absent, _))) = cc absent
    no_key (c ∷ cs) (inr p) = no_key cs p

without_links :
    (links : List Sink) → All (λ l. (key : List ℕ) × (none ≡ some key)) links → links ≡ []
without_links [] h = refl
without_links (l ∷ ls) ((_, absent), _) = cc absent

module _ (clients : List Admitted)
    (h : All (λ c. authorize none c.meshkey ≡ ok c.can_mesh) clients) where
  without_mesh :
      (m : KeyMap Sink) → Values (grants_of clients []) (grants_of clients []).IsPartner m → m ≡ []
  without_mesh [] p = refl
  without_mesh ((k, sink) ∷ m) (inl c, later) = absurd (without_key sink clients h c)
  without_mesh ((k, sink) ∷ m) (inr l, later) = elim l [ ]

  permitted-IsLocal : (d : Delivery) → IsPermitted (grants_of clients []) d → IsLocal clients d
  permitted-IsLocal (sink, WriteLoopCommand.send_packet source target payload) (inl c, inl k) =
      (c, k)
  permitted-IsLocal (sink, WriteLoopCommand.send_packet source target payload) (inr l, k) =
      elim l [ ]
  permitted-IsLocal (sink, WriteLoopCommand.send_packet source target payload) (inl c, inr l) =
      elim l [ ]
  permitted-IsLocal (sink, WriteLoopCommand.stop) p = elim p [ ]
  permitted-IsLocal (sink, WriteLoopCommand.peer_present k) (inl c) =
      absurd (without_key sink clients h c)
  permitted-IsLocal (sink, WriteLoopCommand.peer_present k) (inr l) = elim l [ ]

-- In every state that a server without a mesh key reaches there is no link and no mesh peer, and
-- all that was sent are packets with the key of an admitted client as their source, to the
-- channels of admitted clients.
pub alone-IsLocal :
    (s : System)
    → Reach (initial none) s
    → (s.links ≡ []) × (s.world.service.mesh ≡ []) × All (IsLocal s.clients) s.world.sent
alone-IsLocal s r =
    let sound = Reach-IsSound none r in
    let alone = without_links s.links sound.links in
    (
      alone,
      without_mesh s.clients sound.authorized s.world.service.mesh (
          subst
            (λ ls.
              Values (grants_of s.clients ls) (grants_of s.clients ls).IsPartner
                s.world.service.mesh)
            alone sound.world.mesh),
      All-map (permitted-IsLocal s.clients sound.authorized) s.world.sent (
          subst (λ ls. All (IsPermitted (grants_of s.clients ls)) s.world.sent) alone
            sound.world.sent),
    )
