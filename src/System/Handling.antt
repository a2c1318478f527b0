-- ===== src/System/Handling.antt =====
-- The steps of the command loop (dersp/src/service.rs) keep what holds of the program's states.
use dersp.Prelude.{
  ℕ, ◌≡◌, Option, some, List, ◌∷◌, All, inl, inr, ◌∙◌, ap, subst, Option-cases, none,
}
use dersp.Crypto.Keys.{PublicKey}
use dersp.KeyMap.{get}
use dersp.Channel.{ServiceCommand, Delivery}
use dersp.Service.State.{send_keeps}
use dersp.Service.Routing.{command_loop-keeps_meshkey}
use dersp.System.Grants.{IsEntitled, IsPermitted}
use dersp.System.Operations.{Values-get, IsOrderly-send, IsOrderly-command_loop}
use dersp.System.Steps.{System, handled_at_once, looked_up, handled, forwarded}
use dersp.System.Orderly.{Holds, grants, IsSound}

module _ (meshkey : Option (List ℕ)) where
  IsSound-handled_at_once :
      (c : ServiceCommand) (rest : List ServiceCommand) (s : System)
      → s.queue ≡ c ∷ rest
      → IsSound meshkey s
      → IsSound meshkey (handled_at_once c rest s)
  IsSound-handled_at_once c rest s e h =
      let (now, later) = subst (All (IsEntitled (grants s))) e h.queue in
      record {
        world = IsOrderly-command_loop (grants s) c s.world now h.world;
        queue = later;
        held = h.held;
        server_key = command_loop-keeps_meshkey c s.world ∙ h.server_key;
        authorized = h.authorized;
        links = h.links;
        channels = h.channels;
      }

  -- The channel of a route is a member's.
  looked_up-Holds :
      (source target : PublicKey) (payload : List ℕ) (s : System)
      → (grants s).IsSource source
      → IsSound meshkey s
      → Holds
          (IsPermitted (grants s))
          (looked_up (get target s.world.service.peers_sinks) source target payload)
  unfolding looked_up
  looked_up-Holds source target payload s p h =
      elim (Option-cases (get target s.world.service.peers_sinks)) [
        | inl unknown ↦ rw unknown tt
        | inr (sink, known) ↦ rw known (
          Values-get (grants s).IsMember target sink s.world.service.peers_sinks h.world.routes
              known,
          p,
        )
      ]

  pub IsSound-handled :
      (c : ServiceCommand) (rest : List ServiceCommand) (s : System)
      → s.queue ≡ c ∷ rest
      → IsSound meshkey s
      → IsSound meshkey (handled c rest s)
  unfolding handled
  IsSound-handled ServiceCommand.stop rest s e h =
      IsSound-handled_at_once ServiceCommand.stop rest s e h
  IsSound-handled (ServiceCommand.subscribe_for_peer_changes pk sink) rest s e h =
      IsSound-handled_at_once (ServiceCommand.subscribe_for_peer_changes pk sink) rest s e h
  IsSound-handled (ServiceCommand.peer_present pk sink) rest s e h =
      IsSound-handled_at_once (ServiceCommand.peer_present pk sink) rest s e h
  IsSound-handled (ServiceCommand.send_packet source target payload) rest s e h =
      let (now, later) = subst (All (IsEntitled (grants s))) e h.queue in
      record {
        world = h.world;
        queue = later;
        held = looked_up-Holds source target payload s now h;
        server_key = h.server_key;
        authorized = h.authorized;
        links = h.links;
        channels = h.channels;
      }

  pub IsSound-forwarded :
      (d : Delivery) (s : System)
      → s.held ≡ some d
      → IsSound meshkey s
      → IsSound meshkey (forwarded d s)
  unfolding forwarded
  IsSound-forwarded (sink, c) s e h = record {
    world =
        IsOrderly-send (grants s) sink c s.world (subst (Holds (IsPermitted (grants s))) e h.held)
          h.world;
    queue = h.queue;
    held = tt;
    server_key = ap (λ x. x.meshkey) (send_keeps sink c s.world) ∙ h.server_key;
    authorized = h.authorized;
    links = h.links;
    channels = h.channels;
  }

-- What the command loop does with a command it has taken, if nothing happens before its send.
abbrev pub settled : Option Delivery → System → System
settled none s = s
settled (some d) s = forwarded d s
