-- ===== src/Prelude/Splice.antt =====
-- An array between its slices: `[...xs.slice(0, i), y, ...xs.slice(i + 1)]`.
use Prim.Native.Nat.{ℕ, zero, suc, ◌+◌}
use mathlib.Core.Path.{◌≡◌, refl}
use mathlib.Core.Option.{some}
use mathlib.Core.List.{List, [], ◌∷◌, ◌++◌}
use native.Mathlib.Omega.{arith}
use native.Mathlib.Numerals.{add-one}
use enterprise_system.Prelude.Tests.{◌==◌, if◌then◌else◌}
use enterprise_system.Prelude.Lists.{take, drop, get_elem?, All}

module _ {A : Type 0} where
  get_elem?-splice_suc :
      (i j : ℕ) (xs : List A) (x y : A)
      → get_elem? xs i ≡ some x
      → get_elem? (take i xs ++ y ∷ drop (suc i) xs) j ≡ (if i == j then some y else get_elem? xs j)
  get_elem?-splice_suc i j [] x y h = cc
  get_elem?-splice_suc zero zero (z ∷ xs) x y h = refl
  get_elem?-splice_suc zero (suc j) (z ∷ xs) x y h = ground arith
  get_elem?-splice_suc (suc i) zero (z ∷ xs) x y h = ground arith
  get_elem?-splice_suc (suc i) (suc j) (z ∷ xs) x y h =
      ground (arith, get_elem?-splice_suc i j xs x y h)

  -- The item at the place is the new one, and the others stay.
  pub get_elem?-splice :
      (i j : ℕ) (xs : List A) (x y : A)
      → get_elem? xs i ≡ some x
      → get_elem? (take i xs ++ y ∷ drop (i + 1) xs) j ≡ (if i == j then some y else get_elem? xs j)
  get_elem?-splice i j xs x y h = rw (add-one i) (get_elem?-splice_suc i j xs x y h)

module _ {ℓ κ} {A : Type ℓ} (P : A → Type κ) where
  pub All-drop : (i : ℕ) (xs : List A) → All P xs → All P (drop i xs)
  All-drop zero xs h = h
  All-drop (suc i) [] h = tt
  All-drop (suc i) (x ∷ xs) (p, h) = All-drop i xs h

  pub All-take : (i : ℕ) (xs : List A) → All P xs → All P (take i xs)
  All-take zero xs h = tt
  All-take (suc i) [] h = tt
  All-take (suc i) (x ∷ xs) (p, h) = (p, All-take i xs h)
