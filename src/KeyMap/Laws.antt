-- ===== src/KeyMap/Laws.antt =====
-- Laws of the key maps.
use dersp.Prelude.{
  All, ◌≡◌, ◌↔◌, refl, ap, true, some, [], ◌∷◌, if◌then◌else◌, arith, bytes_eq_iff, Bool-cases, inl,
  inr,
}
use dersp.Crypto.Keys.{PublicKey, key_eq}
use dersp.KeyMap.{KeyMap, get, insert}

pub key_eq_iff : (a b : PublicKey) → (key_eq a b ≡ true) ↔ (a ≡ b)
unfolding key_eq
key_eq_iff a b = (
  λ h. ap (λ xs. record { bytes = xs }) ((bytes_eq_iff a.bytes b.bytes).0 h),
  λ e. (bytes_eq_iff a.bytes b.bytes).1 (ap (λ k. k.bytes) e),
)

pub key_eq_refl : (a : PublicKey) → key_eq a a ≡ true
key_eq_refl a = (key_eq_iff a a).1 refl

module _ {V : Type 0} where
  pub get-insert :
      (k j : PublicKey) (v : V) (m : KeyMap V)
      → get j (insert k v m) ≡ (if key_eq k j then some v else get j m)
  unfolding get insert
  get-insert k j v [] = refl
  get-insert k j v ((i, w) ∷ m) =
      ground (arith, key_eq_iff i k, key_eq_iff i j, key_eq_iff k j, get-insert k j v m)

  pub get-insert_self : (k : PublicKey) (v : V) (m : KeyMap V) → get k (insert k v m) ≡ some v
  get-insert_self k v m = rw (get-insert, key_eq_refl k)

-- What holds of every entry of a map, and of a new one.
pub All-insert :
    {V : Type 0} (Q : PublicKey × V → Type 0) (k : PublicKey) (v : V) (m : KeyMap V)
    → Q (k, v)
    → All Q m
    → All Q (insert k v m)
unfolding insert
All-insert Q k v [] q h = (q, tt)
All-insert Q k v ((j, w) ∷ m) q (now, later) = elim (Bool-cases (key_eq j k)) [
  | inl same ↦ rw same (q, later)
  | inr other ↦ rw other (now, All-insert Q k v m q later)
]
