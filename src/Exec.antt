-- ===== src/Exec.antt =====
-- The effects of the Rust code: a `Result` that may also be a panic, threaded through the state
-- that `&mut` arguments share. What was written before an error stays written.
pub mod Yields
use mathlib.Core.Path.{◌≡◌}

-- `err` is Rust's `Err`. `panic` is a failed `unwrap`, a `panic!` or a `todo!`. `stuck` is no Rust
-- value: a loop of the model ran out of fuel.
pub data Outcome {ℓ κ} (E : Type ℓ) (A : Type κ) : Type (ℓ ⊔ κ) where
  ok : A → Outcome E A
  err : E → Outcome E A
  panic : Outcome E A
  stuck : Outcome E A

abbrev pub Exec {ℓ κ ι} : Type ℓ → Type κ → Type ι → Type (ℓ ⊔ κ ⊔ ι)
Exec E S A = S → Outcome E A × S

module _ {ℓ κ ι} {E : Type ℓ} {S : Type κ} {A : Type ι} where
  abbrev pub pure : A → Exec E S A
  pure a s = (ok a, s)

  abbrev pub raise : E → Exec E S A
  raise e s = (err e, s)

  abbrev pub abort : Exec E S A
  abort s = (panic, s)

  abbrev pub lift : Outcome E A → Exec E S A
  lift r s = (r, s)

module _ {ℓ κ ι μ} {E : Type ℓ} {S : Type κ} {A : Type ι} {B : Type μ} where
  abbrev pub continue : Outcome E A → (A → Exec E S B) → Exec E S B
  continue (ok a) f s = f a s
  continue (err e) f s = (err e, s)
  continue panic f s = (panic, s)
  continue stuck f s = (stuck, s)

  infixl 5 ◌>>=◌ ◌>>◌
  abbrev pub ◌>>=◌ : Exec E S A → (A → Exec E S B) → Exec E S B
  ◌>>=◌ m f s = let (r, s') = m s in continue r f s'

  abbrev pub ◌>>◌ : Exec E S A → Exec E S B → Exec E S B
  m >> k = m >>= λ _. k

  -- One step of a block whose first action succeeds, and whose first action fails.
  pub bind-ok :
      (m : Exec E S A) (f : A → Exec E S B) {s s' : S} {a : A}
      → m s ≡ (ok a, s')
      → (m >>= f) s ≡ f a s'
  bind-ok m f e = rw e

  pub then-ok :
      (m : Exec E S A) (k : Exec E S B) (s : S) {s' : S} {a : A}
      → m s ≡ (ok a, s')
      → (m >> k) s ≡ k s'
  then-ok m k s e = rw e

  pub then-done :
      (m : Exec E S A) (k : Exec E S B) (s : S) {a : A} → (m s).0 ≡ ok a → (m >> k) s ≡ k (m s).1
  then-done m k s e = rw e

  pub then-err :
      (m : Exec E S A) (k : Exec E S B) (s : S) {e : E}
      → (m s).0 ≡ err e
      → (m >> k) s ≡ (err e, (m s).1)
  then-err m k s e = rw e
