-- ===== src/System/Typed/Serving.antt =====
-- dersp/src/service.rs on typed commands and clients: what it keeps and sends is typed.
use dersp.Prelude.{ℕ, List, [], ◌∷◌, All, All-append, Bool-cases, inl, inr, Option-cases}
use dersp.Exec.Yields.{Yields, Yields-bind, Yields-pure}
use dersp.Crypto.Keys.{PublicKey, IsKey}
use dersp.KeyMap.{KeyMap, get, insert, contains_key, keys}
use dersp.KeyMap.Laws.{All-insert}
use dersp.Channel.{Sink, WriteLoopCommand, ServiceCommand, Delivery}
use dersp.Service.State.{World, send, spawn}
use dersp.Service.Clients.{mesh_notifications}
use dersp.Service.Admission.{admitted}
use dersp.Service.Commands.{
  not_meshed, notifications, route, subscribe, add_peer, learn_peer, command_loop,
}
use dersp.System.Typed.{IsTyped, IsTypedDelivery}

-- The keys that have a route, and all that was sent or is still to be sent.
pub record IsTypedWorld (w : World) : Type 0 where
  pub routes : All (λ entry. IsKey entry.0) w.service.peers_sinks
  pub sent : All IsTypedDelivery w.sent
  pub tasks : All (All IsTypedDelivery) w.tasks

abbrev Done : Unit {0} → Type 0
Done t = Unit {0}

typed_keys : (m : KeyMap Sink) → All (λ entry. IsKey entry.0) m → All IsKey (keys m)
unfolding keys
typed_keys [] h = tt
typed_keys ((k, s) ∷ m) (now, later) = (now, typed_keys m later)

typed_not_meshed :
    (mesh : KeyMap Sink) (ks : List PublicKey) → All IsKey ks → All IsKey (not_meshed mesh ks)
unfolding not_meshed
typed_not_meshed mesh [] h = tt
typed_not_meshed mesh (k ∷ ks) (now, later) = elim (Bool-cases (contains_key k mesh)) [
  | inl known ↦ rw known (typed_not_meshed mesh ks later)
  | inr new ↦ rw new (now, typed_not_meshed mesh ks later)
]

typed_notifications :
    (sink : Sink) (ks : List PublicKey) → All IsKey ks → All IsTypedDelivery (notifications sink ks)
unfolding notifications
typed_notifications sink [] h = tt
typed_notifications sink (k ∷ ks) (now, later) = (now, typed_notifications sink ks later)

typed_mesh_notifications :
    (pk : PublicKey) (mesh : KeyMap Sink)
    → IsKey pk
    → All IsTypedDelivery (mesh_notifications pk mesh)
unfolding mesh_notifications
typed_mesh_notifications pk [] h = tt
typed_mesh_notifications pk ((peer, sink) ∷ mesh) h = (h, typed_mesh_notifications pk mesh h)

pub Yields-send : (d : Delivery) → IsTypedDelivery d → Yields IsTypedWorld Done (send d.0 d.1)
unfolding send
Yields-send (sink, c) p = record {
  at = λ w h. elim (Bool-cases (w.open_sinks sink)) [
    | inl alive ↦ rw alive (
      record {
        routes = h.routes;
        sent = All-append IsTypedDelivery w.sent ((sink, c) ∷ []) h.sent (p, tt);
        tasks = h.tasks;
      },
      λ a e. tt,
    )
    | inr closed ↦ rw closed (h, λ a e. tt)
  ];
}

Yields-route :
    (source target : PublicKey) (payload : List ℕ)
    → IsTyped (ServiceCommand.send_packet source target payload)
    → Yields IsTypedWorld Done (route source target payload)
unfolding route
Yields-route source target payload p = record {
  at = λ w h. elim (Option-cases (get target w.service.peers_sinks)) [
    | inl unknown ↦ rw unknown (h, λ a e. tt)
    | inr (sink, known) ↦
        rw known ((Yields-send (sink, WriteLoopCommand.send_packet source target payload) p).at w h)
  ];
}

Yields-subscribe : (pk : PublicKey) (sink : Sink) → Yields IsTypedWorld Done (subscribe pk sink)
unfolding subscribe spawn
Yields-subscribe pk sink = record {
  at = λ w h.
      let told =
        typed_not_meshed (insert pk sink w.service.mesh) (keys w.service.peers_sinks)
          (typed_keys w.service.peers_sinks h.routes) in
      (
        record {
          routes = h.routes;
          sent = h.sent;
          tasks =
              All-append (All IsTypedDelivery) w.tasks _ h.tasks
                (typed_notifications sink _ told, tt);
        },
        λ a e. tt,
      );
}

Yields-learn_peer :
    (pk : PublicKey) (sink : Sink) → IsKey pk → Yields IsTypedWorld Done (learn_peer pk sink)
unfolding learn_peer add_peer
Yields-learn_peer pk sink hk = record {
  at = λ w h. (
    record {
      routes = elim (Bool-cases (contains_key pk w.service.peers_sinks)) [
        | inl known ↦ rw known h.routes
        | inr new ↦
            rw new (All-insert (λ entry. IsKey entry.0) pk sink w.service.peers_sinks hk h.routes)
      ];
      sent = h.sent;
      tasks = h.tasks;
    },
    λ a e. tt,
  );
}

-- The command loop on typed commands.
pub Yields-command_loop :
    (commands : List ServiceCommand)
    → All IsTyped commands
    → Yields IsTypedWorld Done (command_loop commands)
unfolding command_loop
Yields-command_loop [] h = Yields-pure tt tt
Yields-command_loop (ServiceCommand.stop ∷ rest) h = Yields-pure tt tt
Yields-command_loop (ServiceCommand.send_packet source target payload ∷ rest) (now, later) =
    Yields-bind Done _ _ (Yields-route source target payload now)
      λ _ _. Yields-command_loop rest later
Yields-command_loop (ServiceCommand.subscribe_for_peer_changes pk sink ∷ rest) (now, later) =
    Yields-bind Done _ _ (Yields-subscribe pk sink) λ _ _. Yields-command_loop rest later
Yields-command_loop (ServiceCommand.peer_present pk sink ∷ rest) (now, later) =
    Yields-bind Done _ _ (Yields-learn_peer pk sink now) λ _ _. Yields-command_loop rest later

-- A new client.
pub IsTypedWorld-admitted :
    (pk : PublicKey) (sink : Sink) (w : World)
    → IsKey pk
    → IsTypedWorld w
    → IsTypedWorld (admitted pk sink w)
IsTypedWorld-admitted pk sink w hk h = record {
  routes = All-insert (λ entry. IsKey entry.0) pk sink w.service.peers_sinks hk h.routes;
  sent = h.sent;
  tasks =
      All-append (All IsTypedDelivery) w.tasks (mesh_notifications pk w.service.mesh ∷ []) h.tasks
        (typed_mesh_notifications pk w.service.mesh hk, tt);
}
