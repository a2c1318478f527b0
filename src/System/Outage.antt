-- ===== src/System/Outage.antt =====
-- What is left of the program when the command loop (dersp/src/service.rs) has ended.
use dersp.Prelude.{
  ℕ, ◌≡◌, refl, Bool, false, Option, List, [], ◌∷◌, ◌++◌, All, All-parts, inl, inr, ◌∙◌, ap, subst,
  Bool-cases,
}
use dersp.Crypto.Keys.{PublicKey}
use dersp.Channel.{WriteLoopCommand, ServiceCommand, Delivery}
use dersp.Client.Authentic.{IsGone, submit-IsGone, Keeps-on_message}
use dersp.MeshClient.Relaying.{Keeps-on_mesh_message}
use dersp.Service.State.{World, send}
use dersp.Service.Admission.{add_new_client-cases}
use dersp.Service.Startup.{start_link, add_link}
use dersp.System.Grants.{Grants, IsNotice}
use dersp.System.Orderly.{grants, IsSound}
use dersp.System.Preserved.{Step-IsSound, Reach-IsSound}
use dersp.System.Steps.{
  System, Step, Reach, initial, delivered, accepted, received, relayed, linked, link_started,
  closed, reading_for,
}

-- The packets among what was sent.
abbrev pub packets : List Delivery → List Delivery
packets [] = []
packets ((sink, WriteLoopCommand.send_packet source target payload) ∷ rest) =
    (sink, WriteLoopCommand.send_packet source target payload) ∷ packets rest
packets (d ∷ rest) = packets rest

packets-append_notice :
    (g : Grants) (d : Delivery) (ds : List Delivery)
    → IsNotice g d
    → packets (ds ++ (d ∷ [])) ≡ packets ds
packets-append_notice g (sink, WriteLoopCommand.peer_present k) [] p = refl
packets-append_notice g (sink, WriteLoopCommand.send_packet source target payload) ds p = elim p [ ]
packets-append_notice g (sink, WriteLoopCommand.stop) ds p = elim p [ ]
packets-append_notice g (sink, WriteLoopCommand.peer_present k)
      ((s, WriteLoopCommand.send_packet source target payload) ∷ ds) p =
    ap (λ xs. (s, WriteLoopCommand.send_packet source target payload) ∷ xs)
      (packets-append_notice g (sink, WriteLoopCommand.peer_present k) ds p)
packets-append_notice g (sink, WriteLoopCommand.peer_present k)
      ((s, WriteLoopCommand.peer_present j) ∷ ds) p =
    packets-append_notice g (sink, WriteLoopCommand.peer_present k) ds p
packets-append_notice g (sink, WriteLoopCommand.peer_present k) ((s, WriteLoopCommand.stop) ∷ ds)
      p =
    packets-append_notice g (sink, WriteLoopCommand.peer_present k) ds p

packets-send :
    (g : Grants) (d : Delivery) (w : World)
    → IsNotice g d
    → packets (send d.0 d.1 w).1.sent ≡ packets w.sent
unfolding send
packets-send g (sink, c) w p = elim (Bool-cases (w.open_sinks sink)) [
  | inl alive ↦ rw alive (packets-append_notice g (sink, c) w.sent p)
  | inr shut ↦ rw shut
]

-- The command loop has ended, its queue is `queue`, and `ds` are the packets sent.
abbrev IsSilent : List ServiceCommand → List Delivery → System → Type 0
IsSilent queue ds t = (t.running ≡ false) × (t.queue ≡ queue) × (packets t.world.sent ≡ ds)

accepted-sent :
    (has_peer_addr : Bool) (pk : PublicKey) (key : Option (List ℕ)) (s : System)
    → (accepted has_peer_addr pk key s).world.sent ≡ s.world.sent
unfolding accepted
accepted-sent has_peer_addr pk key s =
    elim (add_new_client-cases has_peer_addr pk key s.next_sink s.world) [
      | inl (e, refused) ↦ rw refused
      | inr (can_mesh, allowed, done) ↦ rw done
    ]

Step-IsSilent :
    (meshkey : Option (List ℕ)) (queue : List ServiceCommand) (ds : List Delivery) {s t : System}
    → Step s t
    → IsSound meshkey s
    → IsSilent queue ds s
    → IsSilent queue ds t
unfolding received relayed linked closed add_link delivered accepted link_started start_link
Step-IsSilent meshkey queue ds {s} (Step.handle c rest running free e) h (ended, same, sent) = cc
Step-IsSilent meshkey queue ds {s} (Step.forward d running e) h (ended, same, sent) = cc
Step-IsSilent meshkey queue ds {s} (Step.deliver before d rest after e) h (ended, same, sent) =
    let (_, ((now, _), _)) =
      All-parts (All (IsNotice (grants s))) before ((d ∷ rest) ∷ after)
        (subst (All (All (IsNotice (grants s)))) e h.world.tasks) in
    (
      ended,
      same,
      packets-send (grants s) d (record s.world { tasks = before ++ (rest ∷ after) }) now ∙ sent,
    )
Step-IsSilent meshkey queue ds {s} (Step.accept has_peer_addr pk key) h (ended, same, sent) =
    (ended, same, ap packets (accepted-sent has_peer_addr pk key s) ∙ sent)
Step-IsSilent meshkey queue ds {s} (Step.receive client m here) h (ended, same, sent) =
    let (_, kept) =
      (Keeps-on_message (IsGone queue) client.pk client.can_mesh client.sink
          (λ c p. submit-IsGone queue c) m.ty m).at
        (reading_for s) (ended, same) in
    (ended, kept, sent)
Step-IsSilent meshkey queue ds {s} (Step.start_mesh key e) h silent = silent
Step-IsSilent meshkey queue ds {s} (Step.relay sink m here) h (ended, same, sent) =
    let (_, kept) =
      (Keeps-on_mesh_message (IsGone queue) sink (λ c p. submit-IsGone queue c) m.ty m).at
        (reading_for s) (ended, same) in
    (ended, kept, sent)
Step-IsSilent meshkey queue ds {s} (Step.link sink pk here) h silent = silent
Step-IsSilent meshkey queue ds {s} (Step.close sink) h silent = silent

Reach-IsSilent :
    (meshkey : Option (List ℕ)) {s t : System}
    → Reach s t
    → IsSound meshkey s
    → s.running ≡ false
    → IsSound meshkey t × IsSilent s.queue (packets s.world.sent) t
Reach-IsSilent meshkey Reach.here h ended = (h, (ended, refl, refl))
Reach-IsSilent meshkey {s} (Reach.next r step) h ended =
    let (sound, silent) = Reach-IsSilent meshkey r h ended in
    (
      Step-IsSound meshkey step sound,
      Step-IsSilent meshkey s.queue (packets s.world.sent) step sound silent,
    )

-- Once the command loop has ended, in a state that the program reaches, it stays ended whatever
-- steps follow, the queue stays as it was, and no further packet is sent.
pub ended-silences :
    (meshkey : Option (List ℕ)) (s t : System)
    → Reach (initial meshkey) s
    → s.running ≡ false
    → Reach s t
    → (t.running ≡ false) × (t.queue ≡ s.queue) × (packets t.world.sent ≡ packets s.world.sent)
ended-silences meshkey s t r ended onward =
    (Reach-IsSilent meshkey onward (Reach-IsSound meshkey r) ended).1
