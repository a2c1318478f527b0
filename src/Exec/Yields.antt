-- ===== src/Exec/Yields.antt =====
-- Actions that keep a property of the state, and whose results have a property.
use dersp.Prelude.{◌≡◌, refl, subst}
use dersp.Exec.{Exec, Outcome, ok, err, panic, stuck, continue, ◌>>=◌, pure, lift, abort}

pub record Yields {E S A : Type 0} (I : S → Type 0) (Q : A → Type 0) (m : Exec E S A) : Type 0 where
  pub at : (s : S) → I s → I (m s).1 × ((a : A) → (m s).0 ≡ ok a → Q a)

module _ {E S A : Type 0} {I : S → Type 0} {Q : A → Type 0} where
  pub Yields-pure : (a : A) → Q a → Yields I Q (pure {E = E} a)
  Yields-pure a q = record { at = λ s h. (h, λ b e. subst Q (cc e) q) }

  pub Yields-lift : (r : Outcome E A) → ((a : A) → r ≡ ok a → Q a) → Yields I Q (lift r)
  Yields-lift r q = record { at = λ s h. (h, q) }

  pub Yields-abort : Yields I Q (abort {E = E})
  Yields-abort = record { at = λ s h. (h, λ b e. absurd (cc e)) }

module _ {E S A B : Type 0} {I : S → Type 0} (Q : A → Type 0) {R : B → Type 0} (m : Exec E S A)
    (f : A → Exec E S B) where
  bind-Yields :
      (p : Outcome E A × S)
      → I p.1
      → ((a : A) → p.0 ≡ ok a → Q a)
      → ((a : A) → Q a → Yields I R (f a))
      → I (continue p.0 f p.1).1 × ((b : B) → (continue p.0 f p.1).0 ≡ ok b → R b)
  bind-Yields (ok a, s) h q k = (k a (q a refl)).at s h
  bind-Yields (err e, s) h q k = (h, λ b e'. absurd (cc e'))
  bind-Yields (panic, s) h q k = (h, λ b e'. absurd (cc e'))
  bind-Yields (stuck, s) h q k = (h, λ b e'. absurd (cc e'))

  pub Yields-bind : Yields I Q m → ((a : A) → Q a → Yields I R (f a)) → Yields I R (m >>= f)
  Yields-bind h k = record { at = λ s i. let (i', q) = h.at s i in bind-Yields (m s) i' q k }
