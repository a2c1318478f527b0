-- ===== src/KeyMap.antt =====
-- `HashMap<PublicKey, V>` of dersp/src/service.rs as an association list. The order of the entries
-- stands for the order of iteration, which the program leaves open.
pub mod Laws
use dersp.Prelude.{Bool, true, false, Option, none, some, List, [], ◌∷◌, if◌then◌else◌}
use dersp.Crypto.Keys.{PublicKey, key_eq}

abbrev pub KeyMap : Type 0 → Type 0
KeyMap V = List (PublicKey × V)

module _ {V : Type 0} where
  unfoldable pub get : PublicKey → KeyMap V → Option V
  get k [] = none
  get k ((j, v) ∷ m) = if key_eq j k then some v else get k m

  unfoldable pub insert : PublicKey → V → KeyMap V → KeyMap V
  insert k v [] = (k, v) ∷ []
  insert k v ((j, w) ∷ m) = if key_eq j k then (k, v) ∷ m else (j, w) ∷ insert k v m

  unfoldable pub contains_key : PublicKey → KeyMap V → Bool
  contains_key k m = elim (get k m) [ none ↦ false | some v ↦ true ]

  unfoldable pub keys : KeyMap V → List PublicKey
  keys [] = []
  keys ((k, v) ∷ m) = k ∷ keys m
