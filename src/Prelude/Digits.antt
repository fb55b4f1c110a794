-- ===== src/Prelude/Digits.antt =====
-- The decimal digits of a number.
use Prim.Native.Nat.{ℕ, zero, suc, ◌+◌, ◌/◌, ◌%◌}
use mathlib.Core.Bool.{true, false}
use mathlib.Core.List.{[], ◌∷◌, ◌++◌}
use enterprise_system.Prelude.Tests.{ltb}
use enterprise_system.Prelude.Texts.{Text}

-- A number in decimal digits. A number has fewer digits than itself, unless it is 0, which has one.
unfoldable pub digits : ℕ → ℕ → Text
digits zero n = (48 + n % 10) ∷ []
digits (suc fuel) n = elim (ltb n 10) [
  | true ↦ (48 + n) ∷ []
  | false ↦ digits fuel (n / 10) ++ (48 + n % 10) ∷ []
]
