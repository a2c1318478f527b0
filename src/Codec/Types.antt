-- ===== src/Codec/Types.antt =====
-- The types of codec/src/lib.rs. The phantom parameter `Size` is an argument of the functions
-- that encode and decode them.
use dersp.Prelude.{ℕ, List, []}

pub record Opaque : Type 0 where
  pub inner : List ℕ

-- `Opaque::new`, also `Default::default`
abbrev empty_opaque : Opaque
empty_opaque = record { inner = [] }

-- `From<Vec<u8>>`
abbrev pub opaque_from : List ℕ → Opaque
opaque_from vec = record { inner = vec }

pub record SizeWrapper {ℓ} (T : Type ℓ) : Type ℓ where
  pub inner : T

-- `SizeWrapper::new` and `SizeWrapper::into_inner`
abbrev pub wrap {ℓ} : {T : Type ℓ} → T → SizeWrapper T
wrap inner = record { inner = inner }

abbrev pub into_inner {ℓ} : {T : Type ℓ} → SizeWrapper T → T
into_inner w = w.inner

-- `deref` of both, and what a change through `deref_mut` leaves.
abbrev deref_opaque : Opaque → List ℕ
deref_opaque o = o.inner

abbrev deref_mut_opaque : (List ℕ → List ℕ) → Opaque → Opaque
deref_mut_opaque change o = record { inner = change o.inner }

abbrev deref_wrapper {ℓ} : {T : Type ℓ} → SizeWrapper T → T
deref_wrapper w = w.inner

abbrev deref_mut_wrapper {ℓ} : {T : Type ℓ} → (T → T) → SizeWrapper T → SizeWrapper T
deref_mut_wrapper change w = record { inner = change w.inner }

-- `SizeWrapper::default`, with the default of the inner type.
abbrev default_wrapper {ℓ} : {T : Type ℓ} → T → SizeWrapper T
default_wrapper default = wrap default

-- `type Vector<Size, T> = SizeWrapper<Size, Vec<T>>`
abbrev Vector {ℓ} : Type ℓ → Type ℓ
Vector T = SizeWrapper (List T)

pub data Ignore : Type 0 where
  ignore : Ignore
