-- ===== src/System/Typed/Reaching.antt =====
-- What is well formed in every state that the program reaches, if the network delivers bytes.
use dersp.Prelude.{
  ◌≡◌, Option, none, some, List, [], ◌∷◌, ◌++◌, All, All-parts, All-append, Any, inl, inr, subst,
  Bool, ℕ,
}
use dersp.Crypto.Keys.{PublicKey, IsKey}
use dersp.Channel.{Sink, ServiceCommand, Delivery}
use dersp.InOut.Clean.{IsCleanMessage}
use dersp.Service.State.{World}
use dersp.Service.Startup.{start_link, add_link}
use dersp.Service.Admission.{add_new_client-cases}
use dersp.KeyMap.{get}
use dersp.System.Orderly.{Holds}
use dersp.System.Steps.{
  handled_at_once, looked_up, forwarded, Admitted, System, Step, Reach, handled, delivered,
  accepted, enrol, received, relayed, linked, link_started, closed, reading_for, initial,
}
use dersp.System.Typed.{IsTyped, IsTypedDelivery}
use dersp.System.Typed.Reading.{Yields-on_message, Yields-on_mesh_message}
use dersp.System.Typed.Serving.{
  IsTypedWorld, Yields-send, Yields-command_loop, IsTypedWorld-admitted,
}

-- A message that is handled is made of bytes, and a handshake ends with a key of 32 bytes.
abbrev IsCleanStep : {s t : System} → Step s t → Type 0
IsCleanStep (Step.receive client m here) = IsCleanMessage m
IsCleanStep (Step.relay sink m here) = IsCleanMessage m
IsCleanStep (Step.accept has_peer_addr pk meshkey) = IsKey pk
IsCleanStep _ = Unit {0}

abbrev pub IsCleanReach : {s t : System} → Reach s t → Type 0
IsCleanReach Reach.here = Unit {0}
IsCleanReach (Reach.next r step) = IsCleanReach r × IsCleanStep step

-- All keys of clients and routes, and of what is queued, sent or to be sent, have 32 bytes, and all
-- payloads fit into a frame behind a key.
pub record IsTypedSystem (s : System) : Type 0 where
  pub world : IsTypedWorld s.world
  pub queue : All IsTyped s.queue
  pub held : Holds IsTypedDelivery s.held
  pub clients : All (λ c. IsKey c.pk) s.clients

IsTypedSystem-handled_at_once :
    (c : ServiceCommand) (rest : List ServiceCommand) (s : System)
    → s.queue ≡ c ∷ rest
    → IsTypedSystem s
    → IsTypedSystem (handled_at_once c rest s)
IsTypedSystem-handled_at_once c rest s e h =
    let (now, later) = subst (All IsTyped) e h.queue in
    record {
      world = ((Yields-command_loop (c ∷ []) (now, tt)).at s.world h.world).0;
      queue = later;
      held = h.held;
      clients = h.clients;
    }

looked_up-IsTyped :
    (found : Option Sink) (source target : PublicKey) (payload : List ℕ)
    → IsTyped (ServiceCommand.send_packet source target payload)
    → Holds IsTypedDelivery (looked_up found source target payload)
unfolding looked_up
looked_up-IsTyped none source target payload h = tt
looked_up-IsTyped (some sink) source target payload h = h

IsTypedSystem-handled :
    (c : ServiceCommand) (rest : List ServiceCommand) (s : System)
    → s.queue ≡ c ∷ rest
    → IsTypedSystem s
    → IsTypedSystem (handled c rest s)
unfolding handled
IsTypedSystem-handled ServiceCommand.stop rest s e h =
    IsTypedSystem-handled_at_once ServiceCommand.stop rest s e h
IsTypedSystem-handled (ServiceCommand.subscribe_for_peer_changes pk sink) rest s e h =
    IsTypedSystem-handled_at_once (ServiceCommand.subscribe_for_peer_changes pk sink) rest s e h
IsTypedSystem-handled (ServiceCommand.peer_present pk sink) rest s e h =
    IsTypedSystem-handled_at_once (ServiceCommand.peer_present pk sink) rest s e h
IsTypedSystem-handled (ServiceCommand.send_packet source target payload) rest s e h =
    let (now, later) = subst (All IsTyped) e h.queue in
    record {
      world = h.world;
      queue = later;
      held = looked_up-IsTyped (get target s.world.service.peers_sinks) source target payload now;
      clients = h.clients;
    }

IsTypedSystem-forwarded :
    (d : Delivery) (s : System) → s.held ≡ some d → IsTypedSystem s → IsTypedSystem (forwarded d s)
unfolding forwarded
IsTypedSystem-forwarded d s e h = record {
  world = ((Yields-send d (subst (Holds IsTypedDelivery) e h.held)).at s.world h.world).0;
  queue = h.queue;
  held = tt;
  clients = h.clients;
}

IsTypedSystem-delivered :
    (before : List (List Delivery)) (d : Delivery) (rest : List Delivery)
    (after : List (List Delivery)) (s : System)
    → s.world.tasks ≡ before ++ ((d ∷ rest) ∷ after)
    → IsTypedSystem s
    → IsTypedSystem (delivered before d rest after s)
unfolding delivered
IsTypedSystem-delivered before d rest after s e h =
    let (front, ((now, more), back)) =
      All-parts (All IsTypedDelivery) before ((d ∷ rest) ∷ after)
        (subst (All (All IsTypedDelivery)) e h.world.tasks) in
    let w : World = record s.world { tasks = before ++ (rest ∷ after) } in
    record {
      world =
          ((Yields-send d now).at w (record {
            routes = h.world.routes;
            sent = h.world.sent;
            tasks = All-append (All IsTypedDelivery) before (rest ∷ after) front (more, back);
          })).0;
      queue = h.queue;
      held = h.held;
      clients = h.clients;
    }

IsTypedSystem-accepted :
    (has_peer_addr : Bool) (pk : PublicKey) (key : Option (List ℕ)) (s : System)
    → IsKey pk
    → IsTypedSystem s
    → IsTypedSystem (accepted has_peer_addr pk key s)
unfolding accepted enrol
IsTypedSystem-accepted has_peer_addr pk key s hk h =
    elim (add_new_client-cases has_peer_addr pk key s.next_sink s.world) [
      | inl (e, refused) ↦
          rw refused
            (record { world = h.world; queue = h.queue; held = h.held; clients = h.clients })
      | inr (can_mesh, allowed, done) ↦ rw done (record {
        world = IsTypedWorld-admitted pk s.next_sink s.world hk h.world;
        queue = h.queue;
        held = h.held;
        clients = (hk, h.clients);
      })
    ]

-- The key of a client that is there.
client-IsKey :
    (client : Admitted) (clients : List Admitted)
    → Any (λ c. c ≡ client) clients
    → All (λ c. IsKey c.pk) clients
    → IsKey client.pk
client-IsKey client [] here h = elim here [ ]
client-IsKey client (c ∷ cs) (inl same) (now, later) = subst (λ x. IsKey x.pk) same now
client-IsKey client (c ∷ cs) (inr there) (now, later) = client-IsKey client cs there later

Step-IsTypedSystem :
    {s t : System} (step : Step s t) → IsCleanStep step → IsTypedSystem s → IsTypedSystem t
unfolding received relayed linked link_started closed add_link start_link
Step-IsTypedSystem {s} (Step.handle c rest running free e) clean h =
    IsTypedSystem-handled c rest s e h
Step-IsTypedSystem {s} (Step.forward d running e) clean h = IsTypedSystem-forwarded d s e h
Step-IsTypedSystem {s} (Step.deliver before d rest after e) clean h =
    IsTypedSystem-delivered before d rest after s e h
Step-IsTypedSystem {s} (Step.accept has_peer_addr pk key) clean h =
    IsTypedSystem-accepted has_peer_addr pk key s clean h
Step-IsTypedSystem {s} (Step.receive client m here) clean h = record {
  world = h.world;
  queue =
      ((Yields-on_message client.pk client.can_mesh client.sink m.ty m
          (client-IsKey client s.clients here h.clients) clean).at
        (reading_for s) ((tt, tt), h.queue)).0.1;
  held = h.held;
  clients = h.clients;
}
Step-IsTypedSystem {s} (Step.start_mesh key e) clean h = record {
  world = record { routes = h.world.routes; sent = h.world.sent; tasks = h.world.tasks };
  queue = h.queue;
  held = h.held;
  clients = h.clients;
}
Step-IsTypedSystem {s} (Step.relay sink m here) clean h = record {
  world = h.world;
  queue = ((Yields-on_mesh_message sink m.ty m clean).at (reading_for s) ((tt, tt), h.queue)).0.1;
  held = h.held;
  clients = h.clients;
}
Step-IsTypedSystem {s} (Step.link sink pk here) clean h = record {
  world = record { routes = h.world.routes; sent = h.world.sent; tasks = h.world.tasks };
  queue = h.queue;
  held = h.held;
  clients = h.clients;
}
Step-IsTypedSystem {s} (Step.close sink) clean h = record {
  world = record { routes = h.world.routes; sent = h.world.sent; tasks = h.world.tasks };
  queue = h.queue;
  held = h.held;
  clients = h.clients;
}

-- In every state that the program reaches, whatever the order of its steps, if the messages that
-- its read loops handle are made of bytes and every handshake ends with a key of 32 bytes: the
-- keys of all clients and routes, and of every command queued and message sent or to be sent,
-- have 32 bytes, and every payload leaves room for a key in a frame.
pub Reach-IsTypedSystem :
    (meshkey : Option (List ℕ)) {s : System} (r : Reach (initial meshkey) s)
    → IsCleanReach r
    → IsTypedSystem s
Reach-IsTypedSystem meshkey Reach.here clean = record {
  world = record { routes = tt; sent = tt; tasks = tt };
  queue = tt;
  held = tt;
  clients = tt;
}
Reach-IsTypedSystem meshkey (Reach.next r step) (clean, now) =
    Step-IsTypedSystem step now (Reach-IsTypedSystem meshkey r clean)
