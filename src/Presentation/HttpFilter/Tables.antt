-- ===== src/Presentation/HttpFilter/Tables.antt =====
-- That the two maps of the filter know the same statuses.
use enterprise_system.Prelude.{
  ℕ, ◌≡◌, Bool, true, false, List, [], ◌∷◌, map, ◌==◌, if◌then◌else◌, Text, refl, arith, is_some,
  ◌∙◌, sym,
}
use enterprise_system.Presentation.HttpFilter.{at_status, type_map, title_map}

abbrev is_among : ℕ → List ℕ → Bool
is_among n [] = false
is_among n (m ∷ ms) = let rest = is_among n ms in if m == n then true else rest

at_status-is_among :
    (status : ℕ) (table : List (ℕ × Text))
    → is_some (at_status status table) ≡ is_among status (map (λ (e : ℕ × Text). e.0) table)
unfolding at_status
at_status-is_among status [] = refl
at_status-is_among status ((s, t) ∷ table) = ground (arith, at_status-is_among status table)

-- A status has an entry in the map of types exactly if it has one in the map of titles.
pub type_map-title_map :
    (status : ℕ) → is_some (at_status status type_map) ≡ is_some (at_status status title_map)
unfolding type_map title_map
type_map-title_map status =
    at_status-is_among status type_map ∙ sym (at_status-is_among status title_map)
