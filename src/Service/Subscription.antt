-- ===== src/Service/Subscription.antt =====
-- What a mesh peer is told when it subscribes (dersp/src/service.rs).
use dersp.Prelude.{Bool, false, ◌||◌, List, [], ◌∷◌}
use dersp.Crypto.Keys.{PublicKey, key_eq}
use dersp.KeyMap.{KeyMap, insert, keys}
use dersp.Channel.{Sink}
use dersp.Service.State.{World}
use dersp.Service.Commands.{not_meshed}

-- Whether a key stands in a list.
unfoldable pub mentions : PublicKey → List PublicKey → Bool
mentions k [] = false
mentions k (j ∷ js) = key_eq j k || mentions k js

-- Which peers the spawned task of a subscription announces.
abbrev pub announced : World → PublicKey → Sink → List PublicKey
announced w pk sink = not_meshed (insert pk sink w.service.mesh) (keys w.service.peers_sinks)
