-- ===== src/System/Orderly.antt =====
-- What holds in every state that the program reaches.
use dersp.Prelude.{ℕ, ◌≡◌, true, Option, none, some, List, All, Any, ◌⊎◌}
use dersp.Exec.{ok}
use dersp.Service.Clients.{authorize}
use dersp.System.Channels.{IsApart}
use dersp.System.Grants.{Grants, IsPermitted, IsEntitled, IsOrderly}
use dersp.System.Steps.{Admitted, System}
use dersp.Channel.{Sink, Delivery}

-- Who takes part in a state: its clients and links; those clients that may mesh and the links; and
-- the clients' keys, or, as soon as there is a link, any key.
abbrev pub grants_of : List Admitted → List Sink → Grants
grants_of clients links = record {
  IsMember = λ sink. Any (λ c. c.sink ≡ sink) clients ⊎ Any (λ l. l ≡ sink) links;
  IsPartner =
      λ sink. Any (λ c. (c.sink ≡ sink) × (c.can_mesh ≡ true)) clients ⊎ Any (λ l. l ≡ sink) links;
  IsSource = λ k. Any (λ c. c.pk ≡ k) clients ⊎ Any (λ l. Unit {0}) links;
}

abbrev pub grants : System → Grants
grants s = grants_of s.clients s.links

-- What holds of the delivery that is awaited, if there is one.
abbrev pub Holds : (Delivery → Type 0) → Option Delivery → Type 0
Holds P none = Unit {0}
Holds P (some d) = P d

-- The routes, the mesh, the queue and what is sent or is to be sent keep to the grants; a client may
-- mesh as the mesh keys say; there are links only with a mesh key; and each has a channel of its own.
pub record IsSound (meshkey : Option (List ℕ)) (s : System) : Type 0 where
  pub world : IsOrderly (grants s) s.world
  pub queue : All (IsEntitled (grants s)) s.queue
  pub held : Holds (IsPermitted (grants s)) s.held
  pub server_key : s.world.service.meshkey ≡ meshkey
  pub authorized : All (λ c. authorize meshkey c.meshkey ≡ ok c.can_mesh) s.clients
  pub links : All (λ l. (key : List ℕ) × (meshkey ≡ some key)) s.links
  pub channels : IsApart s.next_sink s.clients s.links
