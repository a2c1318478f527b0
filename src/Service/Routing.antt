-- ===== src/Service/Routing.antt =====
-- `command_loop` of dersp/src/service.rs against a router over a partial function from keys to
-- channels.
use dersp.Prelude.{
  ℕ, ◌≡◌, refl, sym, ap, ◌∙◌, fun_ext, Option, none, some, List, [], ◌∷◌, ◌++◌, append-nil,
  append_assoc, if◌then◌else◌, arith, Option-cases, inl, inr, ◌⊎◌, Bool, Bool-cases, subst,
}
use dersp.Exec.{Outcome, ok, err, then-done, then-err}
use dersp.Failure.{Failure, send_failed}
use dersp.Crypto.Keys.{PublicKey, key_eq}
use dersp.KeyMap.{KeyMap, get, contains_key}
use dersp.KeyMap.Laws.{get-insert, key_eq_iff}
use dersp.Channel.{Sink, WriteLoopCommand, ServiceCommand, Delivery}
use dersp.Service.State.{World}
use dersp.Service.Commands.{route, subscribe, add_peer, learn_peer, command_loop}

-- Where the packets for a key go.
abbrev Routes : Type 0
Routes = PublicKey → Option Sink

abbrev pub routes_of : World → Routes
routes_of w k = get k w.service.peers_sinks

-- A key that has a route keeps it; another one gets the route that is announced.
abbrev learn : PublicKey → Sink → Routes → Routes
learn pk sink routes k = elim (routes k) [
  | some s ↦ some s
  | none ↦ if key_eq pk k then some sink else none
]

-- What a router does: how it ends, and what it has delivered.
abbrev Routed : Type 0
Routed = Outcome Failure (Unit {0}) × List Delivery

-- A packet without a route is dropped, and one for a channel that is closed ends the run.
unfoldable deliver : (Sink → Bool) → Option Sink → WriteLoopCommand → Routed → Routed
deliver is_open none command rest = rest
deliver is_open (some sink) command (r, deliveries) =
    if is_open sink then (r, (sink, command) ∷ deliveries) else (err send_failed, [])

-- The router of a queue of commands: each packet goes to the channel of its target, in the order of
-- the queue, and none after a stop or a closed channel.
unfoldable pub routed : (Sink → Bool) → Routes → List ServiceCommand → Routed
unfolding deliver
routed is_open routes [] = (ok tt, [])
routed is_open routes (ServiceCommand.stop ∷ rest) = (ok tt, [])
routed is_open routes (ServiceCommand.send_packet source target payload ∷ rest) =
    deliver is_open (routes target) (WriteLoopCommand.send_packet source target payload)
      (routed is_open routes rest)
routed is_open routes (ServiceCommand.subscribe_for_peer_changes pk sink ∷ rest) =
    routed is_open routes rest
routed is_open routes (ServiceCommand.peer_present pk sink ∷ rest) =
    routed is_open (learn pk sink routes) rest

get-add_peer :
    (pk k : PublicKey) (sink : Sink) (m : KeyMap Sink)
    → get k (add_peer pk sink m) ≡ learn pk sink (λ j. get j m) k
unfolding add_peer contains_key
get-add_peer pk k sink m = ground (arith, key_eq_iff pk k, get-insert pk k sink m, same)
  where
    same : pk ≡ k → get pk m ≡ get k m
    same e = ap (λ j. get j m) e

-- The command loop ended as `run` says, with its deliveries sent after those of `w`.
abbrev pub Follows : Outcome Failure (Unit {0}) × World → World → Routed → Type 0
Follows (r, w') w run = (r ≡ run.0) × (w'.sent ≡ w.sent ++ run.1)

-- On every queue of commands and every state, the command loop ends as the router of its routes
-- and its open channels does, well or with the error of a closed channel, and what it has sent is
-- what this router delivers: each packet to the channel of its target if it has one, in order,
-- and none after a stop or a closed channel.
pub command_loop-routed :
    (commands : List ServiceCommand) (w : World)
    → Follows (command_loop commands w) w (routed w.open_sinks (routes_of w) commands)
unfolding command_loop routed
command_loop-routed [] w = (refl, sym (append-nil w.sent))
command_loop-routed (ServiceCommand.stop ∷ rest) w = (refl, sym (append-nil w.sent))
command_loop-routed (ServiceCommand.send_packet source target payload ∷ rest) w =
    elim (Option-cases (get target w.service.peers_sinks)) [
      | inl unknown ↦ rw unknown (command_loop-routed rest w)
      | inr (sink, known) ↦
          let delivery : List Delivery =
            (sink, WriteLoopCommand.send_packet source target payload) ∷ [] in
          let (how, same) = command_loop-routed rest (record w { sent = w.sent ++ delivery }) in
          elim (Bool-cases (w.open_sinks sink)) [
            | inl alive ↦
                rw (known, alive)
                  (
                    how,
                    same ∙ append_assoc w.sent delivery (routed w.open_sinks (routes_of w) rest).1,
                  )
            | inr closed ↦ rw (known, closed) (refl, sym (append-nil w.sent))
          ]
    ]
command_loop-routed (ServiceCommand.subscribe_for_peer_changes pk sink ∷ rest) w =
    command_loop-routed rest (subscribe pk sink w).1
command_loop-routed (ServiceCommand.peer_present pk sink ∷ rest) w =
    subst (λ r. Follows (command_loop rest (learn_peer pk sink w).1) w (routed w.open_sinks r rest))
      (fun_ext (λ k. get-add_peer pk k sink w.service.peers_sinks))
      (command_loop-routed rest (learn_peer pk sink w).1)

route-keeps :
    (source target : PublicKey) (payload : List ℕ) (w : World)
    → (route source target payload w).1.service ≡ w.service
unfolding route
route-keeps source target payload w = ground arith

route-cases :
    (source target : PublicKey) (payload : List ℕ) (w : World)
    → ((route source target payload w).0 ≡ ok tt)
      ⊎ ((route source target payload w).0 ≡ err send_failed)
unfolding route
route-cases source target payload w = ground arith

learn_keeps :
    (pk k : PublicKey) (sink s : Sink) (m : KeyMap Sink)
    → get k m ≡ some s
    → get k (add_peer pk sink m) ≡ some s
learn_keeps pk k sink s m known = get-add_peer pk k sink m ∙ rw (learn, known)

-- No command takes the route from a key that has one, or changes it, however the command loop
-- ends.
pub command_loop-keeps_routes :
    (commands : List ServiceCommand) (w : World) (k : PublicKey) (sink : Sink)
    → routes_of w k ≡ some sink
    → routes_of (command_loop commands w).1 k ≡ some sink
unfolding command_loop
command_loop-keeps_routes [] w k sink known = known
command_loop-keeps_routes (ServiceCommand.stop ∷ rest) w k sink known = known
command_loop-keeps_routes (ServiceCommand.send_packet source target payload ∷ rest) w k sink known =
    let same = route-keeps source target payload w in
    let known' : routes_of (route source target payload w).1 k ≡ some sink =
      ap (λ s. get k s.peers_sinks) same ∙ known in
    elim (route-cases source target payload w) [
      | inl done ↦
          ap (λ r. routes_of r.1 k)
            (then-done (route source target payload) (command_loop rest) w done)
          ∙ command_loop-keeps_routes rest (route source target payload w).1 k sink known'
      | inr failed ↦
          ap (λ r. routes_of r.1 k)
            (then-err (route source target payload) (command_loop rest) w failed)
          ∙ known'
    ]
command_loop-keeps_routes (ServiceCommand.subscribe_for_peer_changes pk s ∷ rest) w k sink known =
    command_loop-keeps_routes rest (subscribe pk s w).1 k sink known
command_loop-keeps_routes (ServiceCommand.peer_present pk s ∷ rest) w k sink known =
    command_loop-keeps_routes rest (learn_peer pk s w).1 k sink
      (learn_keeps pk k s sink w.service.peers_sinks known)

-- A packet leaves the service as it is.
pub command_loop-packet :
    (source target : PublicKey) (payload : List ℕ) (w : World)
    → (command_loop (ServiceCommand.send_packet source target payload ∷ []) w).1.service ≡ w.service
unfolding command_loop
command_loop-packet source target payload w =
    let same = route-keeps source target payload w in
    elim (route-cases source target payload w) [
      | inl done ↦
          ap (λ r. r.1.service) (then-done (route source target payload) (command_loop []) w done)
          ∙ same
      | inr failed ↦
          ap (λ r. r.1.service) (then-err (route source target payload) (command_loop []) w failed)
          ∙ same
    ]

-- No command changes the server's mesh key.
pub command_loop-keeps_meshkey :
    (c : ServiceCommand) (w : World)
    → (command_loop (c ∷ []) w).1.service.meshkey ≡ w.service.meshkey
unfolding command_loop
command_loop-keeps_meshkey ServiceCommand.stop w = refl
command_loop-keeps_meshkey (ServiceCommand.send_packet source target payload) w =
    ap (λ s. s.meshkey) (command_loop-packet source target payload w)
command_loop-keeps_meshkey (ServiceCommand.subscribe_for_peer_changes pk sink) w = refl
command_loop-keeps_meshkey (ServiceCommand.peer_present pk sink) w = refl
