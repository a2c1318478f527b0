-- ===== src/Examples/Services.antt =====
-- The service's command loop and the admission of clients.
use dersp.Prelude.{◌≡◌, refl, some, List, [], ◌∷◌, bytes_eq, true}
use dersp.Exec.{ok, err}
use dersp.Failure.{send_failed, io_failed}
use dersp.Crypto.Keys.{PublicKey, key_eq}
use dersp.KeyMap.{get, insert, contains_key}
use dersp.Channel.{ServiceCommand, WriteLoopCommand}
use dersp.Service.Commands.{command_loop, learn_peer, add_peer}
use dersp.Service.Routing.{
  Follows, routed, routes_of, command_loop-routed, command_loop-keeps_routes,
}
use dersp.Service.Startup.{Attempt, Round, new, connect_peers, connect_peer}
use dersp.Service.Linking.{has_link, new-links, Interferes, handled-Interferes, Leads}
use dersp.Examples.Fixtures.{alice, bob, connected, disconnected}

abbrev carol : PublicKey
carol = record { bytes = 3 ∷ [] }

abbrev queue : List ServiceCommand
queue =
    ServiceCommand.peer_present carol 5
    ∷ ServiceCommand.send_packet alice carol (1 ∷ [])
    ∷ ServiceCommand.peer_present bob 6
    ∷ ServiceCommand.send_packet alice bob (2 ∷ [])
    ∷ ServiceCommand.stop
    ∷ []

-- The second announcement does not move bob's route.
routed-queue : routed connected.open_sinks (routes_of connected) queue ≡ (
  ok tt,
  (5, WriteLoopCommand.send_packet alice carol (1 ∷ []))
      ∷ (2, WriteLoopCommand.send_packet alice bob (2 ∷ []))
      ∷ [],
)
unfolding routed get key_eq
routed-queue = refl

-- A closed channel ends the loop, and nothing behind it is sent.
closed_queue : routed disconnected.open_sinks (routes_of disconnected) queue ≡ (err send_failed, [])
unfolding routed get key_eq
closed_queue = refl

command_loop-routed_example :
    Follows
      (command_loop queue connected)
      connected
      (routed connected.open_sinks (routes_of connected) queue)
command_loop-routed_example = command_loop-routed queue connected

command_loop-keeps_routes_example : routes_of (command_loop queue connected).1 bob ≡ some 2
unfolding get key_eq
command_loop-keeps_routes_example = command_loop-keeps_routes queue connected bob 2 refl

-- Carol's relay is linked, and announces bob and sends a packet while a second address is tried,
-- which cannot be reached; the third does not resolve.
abbrev rounds : List Round
rounds =
    (Attempt.linked 1 carol, λ w. w)
    ∷ (Attempt.failed io_failed, λ w. (command_loop (ServiceCommand.peer_present bob 1 ∷ []) w).1)
    ∷ (
      Attempt.unresolved io_failed,
      λ w. (command_loop (ServiceCommand.send_packet bob carol (7 ∷ []) ∷ []) w).1,
    )
    ∷ (Attempt.linked 3 bob, λ w. w)
    ∷ []

-- Nothing happens.
waits-Interferes : Interferes (λ sink. sink ≡ 1) (λ w. w)
waits-Interferes = record {
  keeps_mesh = λ w k e. e;
  keeps_key = λ w. refl;
  keeps_routes = λ w routes. routes;
}

new-links_example :
    ((new (some (7 ∷ [])) rounds connected).0 ≡ err io_failed)
    × (has_link carol rounds ≡ true
        → contains_key carol (new (some (7 ∷ [])) rounds connected).1.service.mesh ≡ true)
    × Leads (λ sink. sink ≡ 1) (new (some (7 ∷ [])) rounds connected).1
    × ((new (some (7 ∷ [])) rounds connected).1.service.meshkey ≡ some (7 ∷ []))
unfolding key_eq bytes_eq
new-links_example =
    new-links (λ sink. sink ≡ 1) (7 ∷ []) rounds connected carol
      (
        waits-Interferes,
        (
          handled-Interferes (λ sink. sink ≡ 1) 1 (ServiceCommand.peer_present bob 1) refl refl,
          (
            handled-Interferes (λ sink. sink ≡ 1) 1 (ServiceCommand.send_packet bob carol (7 ∷ []))
                tt refl,
            (waits-Interferes, tt),
          ),
        ),
      )

-- Bob has a route when the start has failed.
announced_meanwhile : get bob (new (some (7 ∷ [])) rounds connected).1.service.peers_sinks ≡ some 1
unfolding new connect_peers connect_peer command_loop learn_peer add_peer get insert contains_key
    key_eq bytes_eq
announced_meanwhile = refl
