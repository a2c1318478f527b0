-- ===== src/System/Entitled.antt =====
-- What new clients and links grant, and what the read loops may queue.
use dersp.Prelude.{◌≡◌, List, ◌∷◌, Any, Any-map, inl, inr, ◌∙◌, ap, sym}
use dersp.Channel.{Sink, ServiceCommand}
use dersp.Client.Authentic.{IsAuthentic}
use dersp.MeshClient.Relaying.{IsRelayed}
use dersp.System.Grants.{Extends, IsEntitled}
use dersp.System.Steps.{Admitted, System}
use dersp.System.Orderly.{grants_of, grants}

module _ (clients : List Admitted) (links : List Sink) where
  pub Extends-client :
      (client : Admitted) → Extends (grants_of clients links) (grants_of (client ∷ clients) links)
  Extends-client client = record {
    member = λ sink h. elim h [ inl c ↦ inl (inr c) | inr l ↦ inr l ];
    partner = λ sink h. elim h [ inl c ↦ inl (inr c) | inr l ↦ inr l ];
    source = λ k h. elim h [ inl c ↦ inl (inr c) | inr l ↦ inr l ];
  }

  pub Extends-link :
      (link : Sink) → Extends (grants_of clients links) (grants_of clients (link ∷ links))
  Extends-link link = record {
    member = λ sink h. elim h [ inl c ↦ inl c | inr l ↦ inr (inr l) ];
    partner = λ sink h. elim h [ inl c ↦ inl c | inr l ↦ inr (inr l) ];
    source = λ k h. elim h [ inl c ↦ inl c | inr l ↦ inr (inr l) ];
  }

pub IsEntitled-authentic :
    (client : Admitted) (s : System)
    → Any (λ c. c ≡ client) s.clients
    → (c : ServiceCommand) → IsAuthentic client.pk client.can_mesh client.sink c
    → IsEntitled (grants s) c
IsEntitled-authentic client s here ServiceCommand.stop p = p
IsEntitled-authentic client s here (ServiceCommand.send_packet source target payload) p =
    inl (Any-map (λ c e. ap (λ x. x.pk) e ∙ sym p) s.clients here)
IsEntitled-authentic client s here (ServiceCommand.subscribe_for_peer_changes k sink)
      (_, same, may) =
    inl (
      Any-map (λ c e. (ap (λ x. x.sink) e ∙ sym same, ap (λ x. x.can_mesh) e ∙ may)) s.clients here)
IsEntitled-authentic client s here (ServiceCommand.peer_present k sink) p =
    inl (Any-map (λ c e. ap (λ x. x.sink) e ∙ sym p) s.clients here)

pub IsEntitled-relayed :
    (sink : Sink) (s : System)
    → Any (λ l. l ≡ sink) s.links
    → (c : ServiceCommand) → IsRelayed sink c
    → IsEntitled (grants s) c
IsEntitled-relayed sink s here ServiceCommand.stop p = p
IsEntitled-relayed sink s here (ServiceCommand.send_packet source target payload) p =
    inr (Any-map (λ l e. tt) s.links here)
IsEntitled-relayed sink s here (ServiceCommand.subscribe_for_peer_changes k j) p = elim p [ ]
IsEntitled-relayed sink s here (ServiceCommand.peer_present k j) p =
    inr (Any-map (λ l e. e ∙ sym p) s.links here)
