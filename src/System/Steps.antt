-- ===== src/System/Steps.antt =====
-- The state of the running program and its steps. A handshake is the key and the mesh key that it
-- ends with; a channel holds one message in the program, which allows fewer orders than these.
use dersp.Prelude.{
  ℕ, suc, ◌≡◌, Bool, true, false, not, ◌&&◌, Option, none, some, List, [], ◌∷◌, ◌++◌, Any, ◌==◌,
}
use dersp.Exec.{Outcome, ok, err, panic, stuck}
use dersp.Failure.{Failure}
use dersp.Crypto.Keys.{PublicKey}
use dersp.Channel.{Sink, ServiceCommand, WriteLoopCommand, Delivery}
use dersp.KeyMap.{get}
use dersp.InOut.{Message, new_reader}
use dersp.Client.ReadLoop.{ReadState, on_message}
use dersp.MeshClient.Loops.{on_mesh_message}
use dersp.Service.State.{World, send}
use dersp.Service.Clients.{add_new_client}
use dersp.Service.Commands.{command_loop}
use dersp.Service.Startup.{new_world, start_link, add_link}

-- A client that the service has admitted: its key, the mesh key that it presented, whether it may
-- mesh, and its channel.
pub record Admitted : Type 0 where
  pub pk : PublicKey
  pub meshkey : Option (List ℕ)
  pub can_mesh : Bool
  pub sink : Sink

-- The service, the queue of its command loop, whether that loop runs and the packet whose `send` it
-- awaits, with the channel that it found for it, the number of the next channel, the clients admitted so far, and the channels of the links to other relays.
pub record System : Type 0 where
  pub world : World
  pub queue : List ServiceCommand
  pub running : Bool
  pub held : Option Delivery
  pub next_sink : Sink
  pub clients : List Admitted
  pub links : List Sink

abbrev pub initial : Option (List ℕ) → System
initial meshkey = record {
  world = new_world meshkey;
  queue = [];
  running = true;
  held = none;
  next_sink = 0;
  clients = [];
  links = [];
}

-- The command loop goes on after a command that is no stop and did not fail.
unfoldable pub goes_on : ServiceCommand → Outcome Failure (Unit {0}) → Bool
goes_on ServiceCommand.stop r = false
goes_on c (ok t) = true
goes_on c (err e) = false
goes_on c panic = false
goes_on c stuck = false

-- `let sink = match service.read().await.peers_sinks.get(&target) { … };`, after which the lock is
-- released; without a route the loop goes on at once.
unfoldable pub looked_up : Option Sink → PublicKey → PublicKey → List ℕ → Option Delivery
looked_up none source target payload = none
looked_up (some sink) source target payload =
    some (sink, WriteLoopCommand.send_packet source target payload)

-- A command that is handled without awaiting another channel.
abbrev pub handled_at_once : ServiceCommand → List ServiceCommand → System → System
handled_at_once c rest s =
    let (r, w) = command_loop (c ∷ []) s.world in
    record s { world = w; queue = rest; running = goes_on c r }

-- The command loop takes a command. For a packet it only looks the channel up.
unfoldable pub handled : ServiceCommand → List ServiceCommand → System → System
unfolding goes_on looked_up
handled (ServiceCommand.send_packet source target payload) rest s = record s {
  queue = rest;
  held = looked_up (get target s.world.service.peers_sinks) source target payload;
}
handled ServiceCommand.stop rest s = handled_at_once ServiceCommand.stop rest s
handled (ServiceCommand.subscribe_for_peer_changes pk sink) rest s =
    handled_at_once (ServiceCommand.subscribe_for_peer_changes pk sink) rest s
handled (ServiceCommand.peer_present pk sink) rest s =
    handled_at_once (ServiceCommand.peer_present pk sink) rest s

abbrev pub succeeds : Outcome Failure (Unit {0}) → Bool
succeeds (ok t) = true
succeeds (err e) = false
succeeds panic = false
succeeds stuck = false

-- `sink.send(…).await?`, at some later time, if the channel has room: it ends the loop if it fails.
unfoldable pub forwarded : Delivery → System → System
forwarded (sink, c) s =
    let (r, w) = send sink c s.world in record s { world = w; held = none; running = succeeds r }

-- A spawned task sends its next message; if that fails it goes on with the others.
unfoldable pub delivered :
    List (List Delivery) → Delivery → List Delivery → List (List Delivery) → System → System
delivered before (sink, c) rest after s = record s {
  world = (send sink c (record s.world { tasks = before ++ (rest ∷ after) })).1;
}

-- The clients after `add_new_client` for a new channel.
unfoldable pub enrol :
    Outcome Failure Bool → PublicKey → Option (List ℕ) → Sink → List Admitted → List Admitted
enrol (ok can_mesh) pk meshkey sink clients =
    record { pk = pk; meshkey = meshkey; can_mesh = can_mesh; sink = sink } ∷ clients
enrol (err e) pk meshkey sink clients = clients
enrol panic pk meshkey sink clients = clients
enrol stuck pk meshkey sink clients = clients

unfoldable pub accepted : Bool → PublicKey → Option (List ℕ) → System → System
unfolding enrol
accepted has_peer_addr pk meshkey s =
    let (r, w) = add_new_client has_peer_addr pk meshkey s.next_sink s.world in
    record s {
      world = w;
      next_sink = suc s.next_sink;
      clients = enrol r pk meshkey s.next_sink s.clients;
    }

-- What a read loop sees of the service's queue.
abbrev pub reading_for : System → ReadState
reading_for s = record { connection = new_reader []; queued = s.queue; service_alive = s.running }

-- A client's read loop handles one message.
unfoldable pub received : Admitted → Message → System → System
received client m s = record s {
  queue = (on_message client.pk client.can_mesh client.sink m.ty m (reading_for s)).1.queued;
}

-- `MeshClient::start` starts a link, its read loop handles one message, and `DerpService::new` adds
-- the link to the mesh.
unfoldable pub link_started : System → System
link_started s = record s {
  world = start_link s.next_sink s.world;
  next_sink = suc s.next_sink;
  links = s.next_sink ∷ s.links;
}

unfoldable pub relayed : Sink → Message → System → System
relayed sink m s = record s { queue = (on_mesh_message sink m.ty m (reading_for s)).1.queued }

unfoldable pub linked : Sink → PublicKey → System → System
linked sink pk s = record s { world = add_link sink pk s.world }

-- A write loop ends: its channel has no receiver any more.
unfoldable pub closed : Sink → System → System
closed sink s = record s {
  world = record s.world { open_sinks = λ j. not (j == sink) && s.world.open_sinks j };
}

pub data Step (s : System) : System → Type 0 where
  handle :
      (c : ServiceCommand) (rest : List ServiceCommand)
      → s.running ≡ true
      → s.held ≡ none
      → s.queue ≡ c ∷ rest
      → Step s (handled c rest s)
  forward : (d : Delivery) → s.running ≡ true → s.held ≡ some d → Step s (forwarded d s)
  deliver :
      (before : List (List Delivery)) (d : Delivery) (rest : List Delivery)
      (after : List (List Delivery))
      → s.world.tasks ≡ before ++ ((d ∷ rest) ∷ after)
      → Step s (delivered before d rest after s)
  accept :
      (has_peer_addr : Bool) (pk : PublicKey) (meshkey : Option (List ℕ))
      → Step s (accepted has_peer_addr pk meshkey s)
  receive :
      (client : Admitted) (m : Message)
      → Any (λ c. c ≡ client) s.clients
      → Step s (received client m s)
  start_mesh : (key : List ℕ) → s.world.service.meshkey ≡ some key → Step s (link_started s)
  relay : (sink : Sink) (m : Message) → Any (λ l. l ≡ sink) s.links → Step s (relayed sink m s)
  link : (sink : Sink) (pk : PublicKey) → Any (λ l. l ≡ sink) s.links → Step s (linked sink pk s)
  close : (sink : Sink) → Step s (closed sink s)

-- The states that the program reaches from a state.
pub data Reach (s : System) : System → Type 0 where
  here : Reach s s
  next : {t u : System} → Reach s t → Step t u → Reach s u
