-- ===== src/Examples/Fixtures.antt =====
-- Data that the examples share.
use dersp.Prelude.{ℕ, Bool, true, false, some, [], ◌∷◌, replicate, arith}
use dersp.Crypto.Keys.{PublicKey, IsKey}
use dersp.Net.{Writer}
use dersp.InOut.{new_reader}
use dersp.Client.ReadLoop.{ReadState}
use dersp.Service.State.{World}

abbrev pub alice : PublicKey
alice = record { bytes = replicate 32 1 }

abbrev pub bob : PublicKey
bob = record { bytes = replicate 32 2 }

pub alice-IsKey : IsKey alice
alice-IsKey = omega arith

pub bob-IsKey : IsKey bob
bob-IsKey = omega arith

-- A server with two clients; the channels answer as `open_sinks` says.
abbrev two_clients : (ℕ → Bool) → World
two_clients open_sinks = record {
  service = record { peers_sinks = (alice, 1) ∷ (bob, 2) ∷ []; mesh = []; meshkey = some (7 ∷ []) };
  open_sinks = open_sinks;
  sent = [];
  tasks = [];
}

abbrev pub connected : World
connected = two_clients (λ s. true)

abbrev pub disconnected : World
disconnected = two_clients (λ s. false)

abbrev pub reading : ReadState
reading = record { connection = new_reader []; queued = []; service_alive = true }

abbrev pub writing : Writer
writing = record { written = []; is_broken = false }
