-- ===== src/Prelude/Throwing.antt =====
-- Code that may throw: a value, or the error that was thrown.
use mathlib.Core.Path.{◌≡◌, refl}
use mathlib.Core.Logic.{◌⊎◌, inl, inr}

pub data Except {ℓ} (E : Type ℓ) (A : Type ℓ) : Type ℓ where
  ok : A → Except E A
  throw : E → Except E A

module _ {ℓ} {E A B : Type ℓ} where
  infixl 5 ◌>>=◌
  abbrev pub ◌>>=◌ : Except E A → (A → Except E B) → Except E B
  ◌>>=◌ (throw error) next = throw error
  ◌>>=◌ (ok value) next = next value

  infixl 5 ◌>>◌
  abbrev pub ◌>>◌ : Except E A → Except E B → Except E B
  ◌>>◌ first second = first >>= λ _. second

  -- A chain that returned: its first part returned too.
  pub >>=-eq-ok :
      (first : Except E A) (next : A → Except E B) {y : B}
      → (first >>= next) ≡ ok y
      → (x : A) × (first ≡ ok x) × (next x ≡ ok y)
  >>=-eq-ok (throw error) next returned = cc
  >>=-eq-ok (ok value) next returned = (value, refl, returned)

pub Except-cases {ℓ} :
    {E A : Type ℓ} (r : Except E A) → ((a : A) × (r ≡ ok a)) ⊎ ((e : E) × (r ≡ throw e))
Except-cases (ok a) = inl (a, refl)
Except-cases (throw e) = inr (e, refl)
