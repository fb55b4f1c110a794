-- ===== src/Common/Parallel/Counts.antt =====
-- The counts of indices.
use enterprise_system.Prelude.{
  ℕ, zero, suc, ◌+◌, ◌≤◌, ◌≡◌, List, [], ◌∷◌, ltb, leb, ◌==◌, if◌then◌else◌, length, arith, refl,
  ◌&&◌,
}
use enterprise_system.Common.Parallel.{indices, count, remove}

pub count-remove :
    (i j : ℕ) (js : List ℕ)
    → 1 ≤ count i js
    → count j js ≡ count j (remove i js) + (if i == j then 1 else 0)
count-remove i j [] h = absurd (omega arith)
count-remove i j (k ∷ js) h = ground (arith, count-remove i j js)

pub length-remove : (i : ℕ) (js : List ℕ) → 1 ≤ count i js → length js ≡ length (remove i js) + 1
length-remove i [] h = absurd (omega arith)
length-remove i (k ∷ js) h = ground (arith, length-remove i js)

pub count-indices :
    (i a n : ℕ) → count i (indices a n) ≡ (if leb a i && ltb i (a + n) then 1 else 0)
count-indices i a zero = ground arith
count-indices i a (suc n) = ground (arith, count-indices i (a + 1) n)

pub length-indices : (a n : ℕ) → length (indices a n) ≡ n
length-indices a zero = refl
length-indices a (suc n) = omega (arith, length-indices (a + 1) n)

pub count-length : (i : ℕ) (js : List ℕ) → 1 ≤ count i js → 1 ≤ length js
count-length i [] h = h
count-length i (j ∷ js) h = omega arith
