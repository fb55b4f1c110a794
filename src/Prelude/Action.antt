-- ===== src/Prelude/Action.antt =====
-- Code that reads and writes a state and may throw. What was written before a throw stays written, so
-- the state comes back beside the error too.
use mathlib.Core.Path.{◌≡◌, refl}
use enterprise_system.Prelude.Throwing.{Except, ok, throw}

abbrev pub Action : Type 0 → Type 0 → Type 0 → Type 0
Action E S A = S → Except E A × S

module _ {E S A : Type 0} where
  abbrev pub pure : A → Action E S A
  pure a s = (ok a, s)

  abbrev pub raise : E → Action E S A
  raise e s = (throw e, s)

  -- A computation that does not read or write the state.
  abbrev pub lift : Except E A → Action E S A
  lift r s = (r, s)

module _ {E S A B : Type 0} where
  abbrev pub continue : Except E A → (A → Action E S B) → Action E S B
  continue (ok a) f s = f a s
  continue (throw e) f s = (throw e, s)

  infixl 5 ◌>>=◌ ◌>>◌
  abbrev pub ◌>>=◌ : Action E S A → (A → Action E S B) → Action E S B
  ◌>>=◌ m f s = let (r, t) = m s in continue r f t

  abbrev pub ◌>>◌ : Action E S A → Action E S B → Action E S B
  m >> n = m >>= λ _. n

  -- Inversion of a bind that returned.
  pub bind-eq-ok :
      (m : Action E S A) (f : A → Action E S B) (s : S) {b : B}
      → ((m >>= f) s).0 ≡ ok b
      → (a : A) × ((m s).0 ≡ ok a) × ((m >>= f) s ≡ f a (m s).1)
  bind-eq-ok m f s h = let (r, t) = m s in go r t h
    where
      go :
          (r : Except E A) (t : S) {b : B}
          → (continue r f t).0 ≡ ok b
          → (a : A) × (r ≡ ok a) × (continue r f t ≡ f a t)
      go (ok a) t h = (a, refl, refl)
      go (throw e) t h = cc
