-- ===== src/Regex.antt =====
-- The regular expressions of the program: the forms that its literals use, and `test` of an
-- expression with both anchors. A quantifier with bounds is `up_to` or `times`.
pub mod Decides
pub mod Classes
use enterprise_system.Prelude.{
  ℕ, zero, suc, Bool, true, false, ◌&&◌, ◌||◌, List, [], ◌∷◌, ◌++◌, ◌≡◌, Text, ◌==◌, if◌then◌else◌,
}

pub data Regex : Type 0 where
  nothing : Regex
  empty : Regex
  one : (ℕ → Bool) → Regex
  seq : Regex → Regex → Regex
  alt : Regex → Regex → Regex
  star : Regex → Regex

-- A literal code unit.
abbrev pub unit : ℕ → Regex
unit c = one (λ d. d == c)

-- `r+`
abbrev pub plus : Regex → Regex
plus r = seq r (star r)

-- `r?`
abbrev pub optional : Regex → Regex
optional r = alt empty r

-- `r{0,n}`
unfoldable pub up_to : ℕ → Regex → Regex
up_to zero r = empty
up_to (suc n) r = alt empty (seq r (up_to n r))

-- `r{n}`
unfoldable pub times : ℕ → Regex → Regex
times zero r = empty
times (suc n) r = seq r (times n r)

-- Does the expression match the empty text?
unfoldable pub nullable : Regex → Bool
nullable nothing = false
nullable empty = true
nullable (one p) = false
nullable (seq q r) = nullable q && nullable r
nullable (alt q r) = nullable q || nullable r
nullable (star r) = true

-- What is left to match after one code unit.
unfoldable pub after : ℕ → Regex → Regex
unfolding nullable
after c nothing = nothing
after c empty = nothing
after c (one p) = if p c then empty else nothing
after c (seq q r) =
    let here = seq (after c q) r in
    let skip = alt here (after c r) in if nullable q then skip else here
after c (alt q r) = alt (after c q) (after c r)
after c (star r) = seq (after c r) (star r)

-- `/^r$/.test(s)`
unfoldable pub test : Regex → Text → Bool
unfolding nullable after up_to times
test r [] = nullable r
test r (c ∷ s) = test (after c r) s

-- The language of an expression.
pub data Matches : Regex → Text → Type 0 where
  done : Matches empty []
  unit_of : {p : ℕ → Bool} {c : ℕ} → p c ≡ true → Matches (one p) (c ∷ [])
  both : {q r : Regex} {s t u : Text} → u ≡ s ++ t → Matches q s → Matches r t → Matches (seq q r) u
  left : {q r : Regex} {s : Text} → Matches q s → Matches (alt q r) s
  right : {q r : Regex} {s : Text} → Matches r s → Matches (alt q r) s
  stop : {r : Regex} → Matches (star r) []
  more :
      {r : Regex} {s t u : Text}
      → u ≡ s ++ t
      → Matches r s
      → Matches (star r) t
      → Matches (star r) u
