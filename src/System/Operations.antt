-- ===== src/System/Operations.antt =====
-- The service's operations (dersp/src/service.rs) keep to the grants.
use dersp.Prelude.{
  ℕ, ◌≡◌, some, List, [], ◌∷◌, All, All-append, Bool-cases, inl, inr, subst, Option-cases,
}
use dersp.Exec.{Outcome, ok, err, panic, stuck, continue, pure}
use dersp.Failure.{Failure}
use dersp.Crypto.Keys.{PublicKey, key_eq}
use dersp.KeyMap.Laws.{All-insert}
use dersp.KeyMap.{KeyMap, get, insert, contains_key, keys}
use dersp.Channel.{Sink, WriteLoopCommand, ServiceCommand, Delivery}
use dersp.Service.State.{World, send, spawn}
use dersp.Service.Commands.{
  not_meshed, notifications, route, subscribe, add_peer, learn_peer, command_loop,
}
use dersp.Service.Admission.{admitted}
use dersp.Service.Startup.{add_link}
use dersp.Service.Clients.{mesh_notifications}
use dersp.System.Grants.{Grants, IsPermitted, IsNotice, IsEntitled, Values, IsOrderly}

pub Values-get :
    (P : Sink → Type 0) (k : PublicKey) (sink : Sink) (m : KeyMap Sink)
    → All (λ entry. P entry.1) m
    → get k m ≡ some sink
    → P sink
unfolding get
Values-get P k sink [] h e = cc e
Values-get P k sink ((j, s) ∷ m) (now, later) e = elim (Bool-cases (key_eq j k)) [
  | inl same ↦ subst P (cc (rw same at e)) now
  | inr other ↦ Values-get P k sink m later (rw other at e)
]

module _ (g : Grants) where
  IsNotice-notifications :
      (sink : Sink) (pks : List PublicKey)
      → g.IsPartner sink
      → All (IsNotice g) (notifications sink pks)
  unfolding notifications
  IsNotice-notifications sink [] p = tt
  IsNotice-notifications sink (pk ∷ pks) p = (p, IsNotice-notifications sink pks p)

  IsNotice-mesh_notifications :
      (pk : PublicKey) (mesh : KeyMap Sink)
      → Values g g.IsPartner mesh
      → All (IsNotice g) (mesh_notifications pk mesh)
  unfolding mesh_notifications
  IsNotice-mesh_notifications pk [] h = tt
  IsNotice-mesh_notifications pk ((peer, sink) ∷ mesh) (now, later) =
      (now, IsNotice-mesh_notifications pk mesh later)

  pub IsOrderly-send :
      (sink : Sink) (c : WriteLoopCommand) (w : World)
      → IsPermitted g (sink, c)
      → IsOrderly g w
      → IsOrderly g (send sink c w).1
  unfolding send
  IsOrderly-send sink c w p h = elim (Bool-cases (w.open_sinks sink)) [
    | inl alive ↦ rw alive (record {
      routes = h.routes;
      mesh = h.mesh;
      sent = All-append (IsPermitted g) w.sent ((sink, c) ∷ []) h.sent (p, tt);
      tasks = h.tasks;
    })
    | inr closed ↦ rw closed h
  ]

  IsOrderly-spawn :
      (deliveries : List Delivery) (w : World)
      → All (IsNotice g) deliveries
      → IsOrderly g w
      → IsOrderly g (spawn deliveries w).1
  unfolding spawn
  IsOrderly-spawn deliveries w p h = record {
    routes = h.routes;
    mesh = h.mesh;
    sent = h.sent;
    tasks = All-append (All (IsNotice g)) w.tasks (deliveries ∷ []) h.tasks (p, tt);
  }

  IsOrderly-route :
      (source target : PublicKey) (payload : List ℕ) (w : World)
      → g.IsSource source
      → IsOrderly g w
      → IsOrderly g (route source target payload w).1
  unfolding route
  IsOrderly-route source target payload w p h =
      elim (Option-cases (get target w.service.peers_sinks)) [
        | inl unknown ↦ rw unknown h
        | inr (sink, known) ↦
            let member = Values-get g.IsMember target sink w.service.peers_sinks h.routes known in
            rw known (
              IsOrderly-send sink (WriteLoopCommand.send_packet source target payload) w (member, p)
                h)
      ]

  IsOrderly-subscribe :
      (pk : PublicKey) (sink : Sink) (w : World)
      → g.IsPartner sink
      → IsOrderly g w
      → IsOrderly g (subscribe pk sink w).1
  unfolding subscribe
  IsOrderly-subscribe pk sink w p h =
      let mesh' = insert pk sink w.service.mesh in
      IsOrderly-spawn _ (record w { service = record w.service { mesh = mesh' } })
        (IsNotice-notifications sink (not_meshed mesh' (keys w.service.peers_sinks)) p)
        (record {
          routes = h.routes;
          mesh = All-insert (λ entry. g.IsPartner entry.1) pk sink w.service.mesh p h.mesh;
          sent = h.sent;
          tasks = h.tasks;
        })

  IsOrderly-learn_peer :
      (pk : PublicKey) (sink : Sink) (w : World)
      → g.IsMember sink
      → IsOrderly g w
      → IsOrderly g (learn_peer pk sink w).1
  unfolding learn_peer add_peer
  IsOrderly-learn_peer pk sink w p h = record {
    routes = elim (Bool-cases (contains_key pk w.service.peers_sinks)) [
      | inl known ↦ rw known h.routes
      | inr new ↦
          rw new (All-insert (λ entry. g.IsMember entry.1) pk sink w.service.peers_sinks p h.routes)
    ];
    mesh = h.mesh;
    sent = h.sent;
    tasks = h.tasks;
  }

  pub IsOrderly-admitted :
      (pk : PublicKey) (sink : Sink) (w : World)
      → g.IsMember sink
      → IsOrderly g w
      → IsOrderly g (admitted pk sink w)
  IsOrderly-admitted pk sink w p h = record {
    routes = All-insert (λ entry. g.IsMember entry.1) pk sink w.service.peers_sinks p h.routes;
    mesh = h.mesh;
    sent = h.sent;
    tasks =
        All-append (All (IsNotice g)) w.tasks (mesh_notifications pk w.service.mesh ∷ []) h.tasks
          (IsNotice-mesh_notifications pk w.service.mesh h.mesh, tt);
  }

  pub IsOrderly-add_link :
      (sink : Sink) (pk : PublicKey) (w : World)
      → g.IsPartner sink
      → IsOrderly g w
      → IsOrderly g (add_link sink pk w)
  unfolding add_link
  IsOrderly-add_link sink pk w p h = record {
    routes = h.routes;
    mesh = All-insert (λ entry. g.IsPartner entry.1) pk sink w.service.mesh p h.mesh;
    sent = h.sent;
    tasks = h.tasks;
  }

  pure_after :
      (r : Outcome Failure (Unit {0}) × World)
      → IsOrderly g r.1
      → IsOrderly g (continue {0, 0, 0, 0} r.0 (λ _. pure tt) r.1).1
  pure_after (ok t, w) h = h
  pure_after (err e, w) h = h
  pure_after (panic, w) h = h
  pure_after (stuck, w) h = h

  pub IsNotice→IsPermitted : (d : Delivery) → IsNotice g d → IsPermitted g d
  IsNotice→IsPermitted (sink, WriteLoopCommand.send_packet source target payload) p = elim p [ ]
  IsNotice→IsPermitted (sink, WriteLoopCommand.peer_present k) p = p
  IsNotice→IsPermitted (sink, WriteLoopCommand.stop) p = p

  -- One command that its sender may give.
  pub IsOrderly-command_loop :
      (c : ServiceCommand) (w : World)
      → IsEntitled g c
      → IsOrderly g w
      → IsOrderly g (command_loop (c ∷ []) w).1
  unfolding command_loop
  IsOrderly-command_loop ServiceCommand.stop w p h = elim p [ ]
  IsOrderly-command_loop (ServiceCommand.send_packet source target payload) w p h =
      pure_after (route source target payload w) (IsOrderly-route source target payload w p h)
  IsOrderly-command_loop (ServiceCommand.subscribe_for_peer_changes pk sink) w p h =
      IsOrderly-subscribe pk sink w p h
  IsOrderly-command_loop (ServiceCommand.peer_present pk sink) w p h =
      IsOrderly-learn_peer pk sink w p h
