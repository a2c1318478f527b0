-- ===== src/System/Grants.antt =====
-- What the service may send to whom (dersp/src/service.rs).
use dersp.Prelude.{All, All-map}
use dersp.Crypto.Keys.{PublicKey}
use dersp.KeyMap.{KeyMap}
use dersp.Channel.{Sink, WriteLoopCommand, ServiceCommand, Delivery}
use dersp.Service.State.{World}

-- Who takes part: the channels of clients and links, those among them that belong to the mesh, and
-- the keys that packets may come from.
pub record Grants : Type 1 where
  pub IsMember : Sink → Type 0
  pub IsPartner : Sink → Type 0
  pub IsSource : PublicKey → Type 0

module _ (g : Grants) where
  -- A packet goes to a member and comes from a source; a peer is announced to a partner.
  abbrev pub IsPermitted : Delivery → Type 0
  IsPermitted (sink, WriteLoopCommand.send_packet source target payload) =
      g.IsMember sink × g.IsSource source
  IsPermitted (sink, WriteLoopCommand.peer_present k) = g.IsPartner sink
  IsPermitted (sink, WriteLoopCommand.stop) = ⊥

  -- What the service's tasks send: announcements.
  abbrev pub IsNotice : Delivery → Type 0
  IsNotice (sink, WriteLoopCommand.peer_present k) = g.IsPartner sink
  IsNotice _ = ⊥

  abbrev pub IsEntitled : ServiceCommand → Type 0
  IsEntitled ServiceCommand.stop = ⊥
  IsEntitled (ServiceCommand.send_packet source target payload) = g.IsSource source
  IsEntitled (ServiceCommand.subscribe_for_peer_changes k sink) = g.IsPartner sink
  IsEntitled (ServiceCommand.peer_present k sink) = g.IsMember sink

  -- The values of a map have a property.
  abbrev pub Values : (Sink → Type 0) → KeyMap Sink → Type 0
  Values P m = All (λ entry. P entry.1) m

  pub record IsOrderly (w : World) : Type 0 where
    pub routes : Values g.IsMember w.service.peers_sinks
    pub mesh : Values g.IsPartner w.service.mesh
    pub sent : All IsPermitted w.sent
    pub tasks : All (All IsNotice) w.tasks

-- More clients and links grant more.
pub record Extends (g g' : Grants) : Type 0 where
  pub member : (sink : Sink) → g.IsMember sink → g'.IsMember sink
  pub partner : (sink : Sink) → g.IsPartner sink → g'.IsPartner sink
  pub source : (k : PublicKey) → g.IsSource k → g'.IsSource k

module _ (g g' : Grants) (more : Extends g g') where
  pub IsPermitted-more : (d : Delivery) → IsPermitted g d → IsPermitted g' d
  IsPermitted-more (sink, WriteLoopCommand.send_packet source target payload) (m, o) =
      (more.member sink m, more.source source o)
  IsPermitted-more (sink, WriteLoopCommand.peer_present k) p = more.partner sink p
  IsPermitted-more (sink, WriteLoopCommand.stop) p = p

  IsNotice-more : (d : Delivery) → IsNotice g d → IsNotice g' d
  IsNotice-more (sink, WriteLoopCommand.send_packet source target payload) p = p
  IsNotice-more (sink, WriteLoopCommand.peer_present k) p = more.partner sink p
  IsNotice-more (sink, WriteLoopCommand.stop) p = p

  pub IsEntitled-more : (c : ServiceCommand) → IsEntitled g c → IsEntitled g' c
  IsEntitled-more ServiceCommand.stop p = p
  IsEntitled-more (ServiceCommand.send_packet source target payload) p = more.source source p
  IsEntitled-more (ServiceCommand.subscribe_for_peer_changes k sink) p = more.partner sink p
  IsEntitled-more (ServiceCommand.peer_present k sink) p = more.member sink p

  pub IsOrderly-more : (w : World) → IsOrderly g w → IsOrderly g' w
  IsOrderly-more w h = record {
    routes = All-map (λ entry p. more.member entry.1 p) w.service.peers_sinks h.routes;
    mesh = All-map (λ entry p. more.partner entry.1 p) w.service.mesh h.mesh;
    sent = All-map IsPermitted-more w.sent h.sent;
    tasks = All-map (All-map IsNotice-more) w.tasks h.tasks;
  }
