-- ===== src/Prelude/Trim.antt =====
-- A text without white space is its own `trim`.
use mathlib.Core.List.{reverse, reverse-append, reverse-reverse}
use enterprise_system.Prelude.Lists.{All, All-append}
use enterprise_system.Prelude.Texts.{Text, is_space, trim_start, trim}
use Prim.Native.Nat.{ℕ}
use mathlib.Core.Path.{◌≡◌, refl}
use mathlib.Core.Bool.{false}
use mathlib.Core.List.{[], ◌∷◌}

abbrev pub IsSolid : ℕ → Type 0
IsSolid c = is_space c ≡ false

All-reverse : (s : Text) → All IsSolid s → All IsSolid (reverse s)
All-reverse [] h = tt
All-reverse (c ∷ s) (p, h) =
    rw (reverse-append (c ∷ []) s)
      (All-append IsSolid (reverse s) (c ∷ []) (All-reverse s h) (p, tt))

trim_start-id : (s : Text) → All IsSolid s → trim_start s ≡ s
unfolding trim_start
trim_start-id [] h = refl
trim_start-id (c ∷ s) (p, h) = rw p

pub trim-id : (s : Text) → All IsSolid s → trim s ≡ s
unfolding trim
trim-id s h =
    rw (trim_start-id s h) (rw (trim_start-id (reverse s) (All-reverse s h)) (reverse-reverse s))
