-- ===== src/System/Preserved.antt =====
-- The steps of the program keep what holds of its states.
use dersp.Prelude.{
  ℕ, ◌≡◌, refl, Bool, Option, none, some, List, ◌∷◌, ◌++◌, All, All-map, All-parts, All-append, inl,
  inr, ◌∙◌, ap, subst, sym,
}
use dersp.Crypto.Keys.{PublicKey}
use dersp.Channel.{ServiceCommand, Delivery}
use dersp.Client.Authentic.{Queued, Keeps-submit, Keeps-on_message}
use dersp.MeshClient.Relaying.{Keeps-on_mesh_message}
use dersp.Service.State.{World, send, send_keeps}
use dersp.Service.Clients.{authorize}
use dersp.Service.Admission.{add_new_client-cases}
use dersp.Service.Startup.{start_link, add_link}
use dersp.System.Channels.{IsApart-skip, IsApart-client, IsApart-link}
use dersp.System.Grants.{
  Grants, Extends, IsPermitted, IsPermitted-more, IsEntitled, IsOrderly, IsOrderly-more,
  IsEntitled-more, IsNotice,
}
use dersp.System.Operations.{
  IsOrderly-admitted, IsOrderly-send, IsOrderly-add_link, IsNotice→IsPermitted,
}
use dersp.System.Steps.{
  Admitted, System, Step, Reach, delivered, accepted, enrol, received, relayed, linked,
  link_started, closed, reading_for, initial,
}
use dersp.System.Orderly.{Holds, grants_of, grants, IsSound}
use dersp.System.Handling.{IsSound-handled, IsSound-forwarded}
use dersp.System.Entitled.{Extends-client, Extends-link, IsEntitled-authentic, IsEntitled-relayed}

module _ (meshkey : Option (List ℕ)) where
  Holds-more :
      (g g' : Grants) (more : Extends g g') (held : Option Delivery)
      → Holds (IsPermitted g) held
      → Holds (IsPermitted g') held
  Holds-more g g' more none h = tt
  Holds-more g g' more (some d) h = IsPermitted-more g g' more d h

  IsSound-accepted :
      (has_peer_addr : Bool) (pk : PublicKey) (key : Option (List ℕ)) (s : System)
      → IsSound meshkey s
      → IsSound meshkey (accepted has_peer_addr pk key s)
  unfolding accepted enrol
  IsSound-accepted has_peer_addr pk key s h =
      elim (add_new_client-cases has_peer_addr pk key s.next_sink s.world) [
        | inl (e, refused) ↦ rw refused (record {
          world = h.world;
          queue = h.queue;
          held = h.held;
          server_key = h.server_key;
          authorized = h.authorized;
          links = h.links;
          channels = IsApart-skip s.next_sink s.clients s.links h.channels;
        })
        | inr (can_mesh, allowed, done) ↦
            let client : Admitted = record {
              pk = pk;
              meshkey = key;
              can_mesh = can_mesh;
              sink = s.next_sink;
            } in
            let more = Extends-client s.clients s.links client in
            let g = grants_of (client ∷ s.clients) s.links in
            rw done (record {
              world =
                  IsOrderly-admitted g pk s.next_sink s.world (inl (inl refl))
                    (IsOrderly-more (grants s) g more s.world h.world);
              queue = All-map (IsEntitled-more (grants s) g more) s.queue h.queue;
              held = Holds-more (grants s) g more s.held h.held;
              server_key = h.server_key;
              authorized = (ap (λ k. authorize k key) (sym h.server_key) ∙ allowed, h.authorized);
              links = h.links;
              channels = IsApart-client s.next_sink s.clients s.links h.channels client refl;
            })
      ]

  IsSound-queue :
      (queue : List ServiceCommand) (s : System)
      → All (IsEntitled (grants s)) queue
      → IsSound meshkey s
      → IsSound meshkey (record s { queue = queue })
  IsSound-queue queue s p h = record {
    world = h.world;
    queue = p;
    held = h.held;
    server_key = h.server_key;
    authorized = h.authorized;
    links = h.links;
    channels = h.channels;
  }

  IsSound-world :
      (w : World) (s : System)
      → IsOrderly (grants s) w
      → w.service.meshkey ≡ s.world.service.meshkey
      → IsSound meshkey s
      → IsSound meshkey (record s { world = w })
  IsSound-world w s p same h = record {
    world = p;
    queue = h.queue;
    held = h.held;
    server_key = same ∙ h.server_key;
    authorized = h.authorized;
    links = h.links;
    channels = h.channels;
  }

  IsSound-delivered :
      (before : List (List Delivery)) (d : Delivery) (rest : List Delivery)
      (after : List (List Delivery)) (s : System)
      → s.world.tasks ≡ before ++ ((d ∷ rest) ∷ after)
      → IsSound meshkey s
      → IsSound meshkey (delivered before d rest after s)
  unfolding delivered
  IsSound-delivered before (sink, c) rest after s e h =
      let P = IsNotice (grants s) in
      let (front, ((now, more), back)) =
        All-parts (All P) before (((sink, c) ∷ rest) ∷ after)
          (subst (All (All P)) e h.world.tasks) in
      let w : World = record s.world { tasks = before ++ (rest ∷ after) } in
      IsSound-world (send sink c w).1 s
        (IsOrderly-send (grants s) sink c w (IsNotice→IsPermitted (grants s) (sink, c) now)
          (record {
            routes = h.world.routes;
            mesh = h.world.mesh;
            sent = h.world.sent;
            tasks = All-append (All P) before (rest ∷ after) front (more, back);
          }))
        (ap (λ x. x.meshkey) (send_keeps sink c w)) h

  IsSound-link_started :
      (key : List ℕ) (s : System)
      → s.world.service.meshkey ≡ some key
      → IsSound meshkey s
      → IsSound meshkey (link_started s)
  unfolding link_started start_link
  IsSound-link_started key s e h =
      let more = Extends-link s.clients s.links s.next_sink in
      let g = grants_of s.clients (s.next_sink ∷ s.links) in
      record {
        world =
            let w = IsOrderly-more (grants s) g more s.world h.world in
            record { routes = w.routes; mesh = w.mesh; sent = w.sent; tasks = w.tasks };
        queue = All-map (IsEntitled-more (grants s) g more) s.queue h.queue;
        held = Holds-more (grants s) g more s.held h.held;
        server_key = h.server_key;
        authorized = h.authorized;
        links = ((key, sym h.server_key ∙ e), h.links);
        channels = IsApart-link s.next_sink s.clients s.links h.channels;
      }

  pub Step-IsSound : {s t : System} → Step s t → IsSound meshkey s → IsSound meshkey t
  unfolding received relayed linked closed add_link
  Step-IsSound {s} (Step.handle c rest running free e) h = IsSound-handled meshkey c rest s e h
  Step-IsSound {s} (Step.forward d running e) h = IsSound-forwarded meshkey d s e h
  Step-IsSound {s} (Step.deliver before d rest after e) h =
      IsSound-delivered before d rest after s e h
  Step-IsSound {s} (Step.accept has_peer_addr pk key) h = IsSound-accepted has_peer_addr pk key s h
  Step-IsSound {s} (Step.receive client m here) h =
      IsSound-queue _ s
        ((Keeps-on_message (Queued (IsEntitled (grants s))) client.pk client.can_mesh client.sink
            (λ c p. Keeps-submit c (IsEntitled-authentic client s here c p)) m.ty m).at
          (reading_for s) h.queue)
        h
  Step-IsSound {s} (Step.start_mesh key e) h = IsSound-link_started key s e h
  Step-IsSound {s} (Step.relay sink m here) h =
      IsSound-queue _ s
        ((Keeps-on_mesh_message (Queued (IsEntitled (grants s))) sink
            (λ c p. Keeps-submit c (IsEntitled-relayed sink s here c p)) m.ty m).at
          (reading_for s) h.queue)
        h
  Step-IsSound {s} (Step.link sink pk here) h =
      IsSound-world _ s (IsOrderly-add_link (grants s) sink pk s.world (inr here) h.world) refl h
  Step-IsSound {s} (Step.close sink) h =
      IsSound-world _ s
        (record {
          routes = h.world.routes;
          mesh = h.world.mesh;
          sent = h.world.sent;
          tasks = h.world.tasks;
        })
        refl h

  Reach-keeps : {s t : System} → Reach s t → IsSound meshkey s → IsSound meshkey t
  Reach-keeps Reach.here h = h
  Reach-keeps (Reach.next r step) h = Step-IsSound step (Reach-keeps r h)

  -- In every state that the program reaches from its start, with the command loop, the clients'
  -- and the links' read loops, the handshakes and the spawned tasks taking their steps in any
  -- order: every route leads to the channel of an admitted client or of a link; the mesh holds
  -- channels of links and of clients that may mesh only, and so does every announcement that is
  -- sent or to be sent; every queued command and every packet sent comes from the key of an
  -- admitted client or, if there is a link, from a relay; every client may mesh as authorize says
  -- of the mesh key it presented; there are links only with a mesh key; and no two clients or
  -- links share a channel.
  pub Reach-IsSound : {s : System} → Reach (initial meshkey) s → IsSound meshkey s
  Reach-IsSound r = Reach-keeps r (record {
    world = record { routes = tt; mesh = tt; sent = tt; tasks = tt };
    queue = tt;
    held = tt;
    server_key = refl;
    authorized = tt;
    links = tt;
    channels = record {
      clients_below = tt;
      links_below = tt;
      clients_differ = tt;
      links_differ = tt;
      apart = tt;
    };
  })
