-- ===== src/System/Channels.antt =====
-- Every client and every link has a channel of its own.
use dersp.Prelude.{suc, ◌<◌, ◌≡◌, ◌≢◌, List, [], ◌∷◌, All, All-map, arith}
use dersp.Channel.{Sink}
use dersp.System.Steps.{Admitted}

abbrev IsApartFrom : List Sink → Admitted → Type 0
IsApartFrom links c = All (λ l. l ≢ c.sink) links

abbrev AllDiffer : List Admitted → Type 0
AllDiffer [] = Unit {0}
AllDiffer (c ∷ cs) = All (λ d. d.sink ≢ c.sink) cs × AllDiffer cs

abbrev AllDistinct : List Sink → Type 0
AllDistinct [] = Unit {0}
AllDistinct (l ∷ ls) = All (λ k. k ≢ l) ls × AllDistinct ls

-- The channels of clients and links are all different, and have numbers below the next one.
pub record IsApart (next_sink : Sink) (clients : List Admitted) (links : List Sink) : Type 0 where
  pub clients_below : All (λ c. c.sink < next_sink) clients
  pub links_below : All (λ l. l < next_sink) links
  pub clients_differ : AllDiffer clients
  pub links_differ : AllDistinct links
  pub apart : All (IsApartFrom links) clients

module _ (n : Sink) (clients : List Admitted) (links : List Sink)
    (h : IsApart n clients links) where
  -- A number is passed over.
  pub IsApart-skip : IsApart (suc n) clients links
  IsApart-skip = record {
    clients_below = All-map (λ c lt. omega (arith, lt)) clients h.clients_below;
    links_below = All-map (λ l lt. omega (arith, lt)) links h.links_below;
    clients_differ = h.clients_differ;
    links_differ = h.links_differ;
    apart = h.apart;
  }

  -- A client gets the next channel.
  pub IsApart-client : (c : Admitted) → c.sink ≡ n → IsApart (suc n) (c ∷ clients) links
  IsApart-client c e = record {
    clients_below = (omega (arith, e), (IsApart-skip).clients_below);
    links_below = (IsApart-skip).links_below;
    clients_differ = (
      All-map (λ d lt same. omega (arith, lt, e, same)) clients h.clients_below,
      h.clients_differ,
    );
    links_differ = h.links_differ;
    apart = (All-map (λ l lt same. omega (arith, lt, e, same)) links h.links_below, h.apart);
  }

  apart_cons :
      (cs : List Admitted)
      → All (λ c. c.sink < n) cs
      → All (IsApartFrom links) cs
      → All (IsApartFrom (n ∷ links)) cs
  apart_cons [] below apart = tt
  apart_cons (c ∷ cs) (lt, below) (now, later) =
      ((λ same. omega (arith, lt, same), now), apart_cons cs below later)

  -- A link gets the next channel.
  pub IsApart-link : IsApart (suc n) clients (n ∷ links)
  IsApart-link = record {
    clients_below = (IsApart-skip).clients_below;
    links_below = (omega arith, (IsApart-skip).links_below);
    clients_differ = h.clients_differ;
    links_differ =
        (All-map (λ l lt same. omega (arith, lt, same)) links h.links_below, h.links_differ);
    apart = apart_cons clients h.clients_below h.apart;
  }
