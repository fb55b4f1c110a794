-- ===== src/Prelude/Double.antt =====
-- Rounding to a double, for numbers that are whole in some unit and do not underflow: to 53 significant bits, to
-- the nearest and on a tie to the even one (IEEE 754).
use native.Mathlib.Nat.{mod-lt, mod-one, lt_of_mul-lt-mul_right, mul-le-mul_right, div-add-mod'}
use Prim.Native.Nat.{ℕ, zero, suc, ◌+◌, ◌*◌, ◌/◌, ◌%◌, ◌≤◌, ◌<◌}
use mathlib.Core.Path.{◌≡◌, refl, ◌∙◌}
use mathlib.Core.Logic.{inl, inr}
use mathlib.Core.Bool.{true, false}
use native.Mathlib.Omega.{arith}
use enterprise_system.Prelude.Tests.{ltb, ◌==◌, if◌then◌else◌, Bool-cases, ltb→lt, lt→ltb}

-- 2^53
abbrev pub precision : ℕ
precision = 9007199254740992

-- The multiple of a unit that is nearest to a number.
unfoldable pub nearest : ℕ → ℕ → ℕ
nearest unit v =
    let below = v / unit * unit in
    let rest = v % unit + v % unit in
    if ltb rest unit
    then below
    else if ltb unit rest
    then below + unit
    else if v / unit % 2 == 0
    then below
    else below + unit

-- The rounding with a last bit of at least a unit; the unit may double so many times.
unfoldable pub round_from : ℕ → ℕ → ℕ → ℕ
unfolding nearest
round_from zero unit v = nearest unit v
round_from (suc n) unit v = elim (ltb v (precision * unit)) [
  | true ↦ nearest unit v
  | false ↦ round_from n (unit + unit) v
]

unfoldable pub round_double : ℕ → ℕ
unfolding round_from
round_double v = round_from 64 1 v

-- The distance from the nearest multiple is at most half a unit.
nearest-le :
    (unit v : ℕ)
    → 1 ≤ unit
    → (nearest unit v + nearest unit v ≤ v + v + unit)
      × (v + v ≤ nearest unit v + nearest unit v + unit)
unfolding nearest
nearest-le unit v h =
    let split : v / unit * unit + v % unit ≡ v = div-add-mod' v unit in
    let small : v % unit < unit = mod-lt v h in
    elim (Bool-cases (ltb (v % unit + v % unit) unit)) [
      | inl e ↦ rw e (ground arith, ground arith)
      | inr e ↦ rw e (elim (Bool-cases (ltb unit (v % unit + v % unit))) [
        | inl f ↦ rw f (ground arith, ground arith)
        | inr f ↦ rw f (elim (Bool-cases (v / unit % 2 == 0)) [
          | inl g ↦ rw g (ground arith, ground arith)
          | inr g ↦ rw g (ground arith, ground arith)
        ])
      ])
    ]

-- How far a rounded number is from the number: at most a part in 2^53.
abbrev pub IsNear : ℕ → ℕ → Type 0
IsNear r v = (precision * r ≤ precision * v + v) × (precision * v ≤ precision * r + v)

nearest-one : (v : ℕ) → nearest 1 v ≡ v
unfolding nearest
nearest-one v = rw (mod-one v) (omega (arith, div-add-mod' v 1, mod-one v))

round_from-IsNear :
    (n unit v : ℕ) → 1 ≤ unit → precision * unit ≤ v + v → IsNear (round_from n unit v) v
unfolding round_from
round_from-IsNear zero unit v h k = let (a, b) = nearest-le unit v h in (omega arith, omega arith)
round_from-IsNear (suc n) unit v h k = elim (Bool-cases (ltb v (precision * unit))) [
  | inl e ↦ rw (e, round_from) (let (a, b) = nearest-le unit v h in (omega arith, omega arith))
  | inr e ↦ rw (e, round_from) (round_from-IsNear n (unit + unit) v (omega arith) (ground arith))
]

round_from_one-IsNear : (n v : ℕ) → IsNear (round_from n 1 v) v
unfolding round_from
round_from_one-IsNear zero v = rw (nearest-one v) (omega arith, omega arith)
round_from_one-IsNear (suc n) v = elim (Bool-cases (ltb v (precision * 1))) [
  | inl e ↦ rw (e, round_from) (rw (nearest-one v) (omega arith, omega arith))
  | inr e ↦ rw (e, round_from) (round_from-IsNear n 2 v (omega arith) (ground arith))
]

pub round_double-IsNear : (v : ℕ) → IsNear (round_double v) v
unfolding round_double
round_double-IsNear v = round_from_one-IsNear 64 v

-- A number of at most 53 bits is its own rounding.
round_from-small : (n v : ℕ) → v < precision → round_from n 1 v ≡ v
unfolding round_from
round_from-small zero v h = nearest-one v
round_from-small (suc n) v h =
    rw (lt→ltb v (precision * 1) (omega arith), round_from) (nearest-one v)

pub round_double-small : (v : ℕ) → v < precision → round_double v ≡ v
unfolding round_double
round_double-small v h = round_from-small 64 v h

-- The unit after so many doublings.
abbrev pub doubled : ℕ → ℕ → ℕ
doubled zero unit = unit
doubled (suc n) unit = doubled n (unit + unit)

round_from-ends :
    (n unit v : ℕ)
    → v < precision * doubled n unit
    → (u : ℕ) × (v < precision * u) × (round_from n unit v ≡ nearest u v)
unfolding round_from
round_from-ends zero unit v h = (unit, h, refl)
round_from-ends (suc n) unit v h = elim (Bool-cases (ltb v (precision * unit))) [
  | inl e ↦ (unit, ltb→lt v (precision * unit) e, rw (e, round_from) refl)
  | inr e ↦ (let (u, k, r) = round_from-ends n (unit + unit) v h in (u, k, rw (e, round_from) r))
]

-- The doublings are enough below 2^117: the number is rounded to a multiple of a unit of which it holds fewer
-- than 2^53.
pub round_double-ends :
    (v : ℕ)
    → v < 166153499473114484112975882535043072
    → (u : ℕ) × (v < precision * u) × (round_double v ≡ nearest u v)
unfolding round_double
round_double-ends v h = round_from-ends 64 1 v h

doubled-multiple : (m unit : ℕ) → (q : ℕ) × (doubled m unit ≡ q * unit)
doubled-multiple zero unit = (1, omega arith)
doubled-multiple (suc m) unit =
    let (q, e) = doubled-multiple m (unit + unit) in
    let twice : q * (unit + unit) ≡ (q + q) * unit = omega arith in (q + q, e ∙ twice)

nearest-bound : (q unit v : ℕ) → 1 ≤ unit → v ≤ q * unit → nearest unit v ≤ q * unit
unfolding nearest
nearest-bound q unit v h k =
    let split : v / unit * unit + v % unit ≡ v = div-add-mod' v unit in
    let up : 1 ≤ v % unit → v / unit * unit + unit ≤ q * unit = λ r.
      let less : v / unit < q = lt_of_mul-lt-mul_right unit (omega arith) in
      let grown : suc (v / unit) * unit ≤ q * unit = mul-le-mul_right unit (omega arith) in
      let next : suc (v / unit) * unit ≡ v / unit * unit + unit = omega arith in omega arith in
    elim (Bool-cases (ltb (v % unit + v % unit) unit)) [
      | inl e ↦ rw e (omega arith)
      | inr e ↦ rw e (
          let above = up (ground arith) in
          elim (Bool-cases (ltb unit (v % unit + v % unit))) [
            | inl f ↦ rw f above
            | inr f ↦ rw f (elim (Bool-cases (v / unit % 2 == 0)) [
              | inl g ↦ rw g (omega arith)
              | inr g ↦ rw g above
            ])
          ])
    ]

doubled-bound : (m unit v : ℕ) → 1 ≤ unit → v ≤ doubled m unit → nearest unit v ≤ doubled m unit
doubled-bound m unit v h k =
    let (q, e) = doubled-multiple m unit in rw e (nearest-bound q unit v h (rw e at k))

round_from-bound :
    (m n unit v : ℕ) → 1 ≤ unit → v ≤ doubled m unit → round_from n unit v ≤ doubled m unit
unfolding round_from
round_from-bound m zero unit v h k = doubled-bound m unit v h k
round_from-bound zero (suc n) unit v h k =
    rw (lt→ltb v (precision * unit) (omega arith), round_from) (doubled-bound zero unit v h k)
round_from-bound (suc m) (suc n) unit v h k = elim (Bool-cases (ltb v (precision * unit))) [
  | inl e ↦ rw (e, round_from) (doubled-bound (suc m) unit v h k)
  | inr e ↦ rw (e, round_from) (round_from-bound m n (unit + unit) v (omega arith) k)
]

-- A number of at most a power of two is not rounded above it.
pub round_double-bound : (m v : ℕ) → v ≤ doubled m 1 → round_double v ≤ doubled m 1
unfolding round_double
round_double-bound m v h = round_from-bound m 64 1 v (omega arith) h

-- The absolute distance, from a bound of the number.
pub round_double-le :
    (k v : ℕ) → v ≤ precision * k → (round_double v ≤ v + k) × (v ≤ round_double v + k)
round_double-le k v h = let (a, b) = round_double-IsNear v in (omega arith, omega arith)
