-- ===== src/Observability/Health/Worst.antt =====
-- That the program is as healthy as the worst of what it depends on.
use mathlib.Core.Path.{ap₂}
use enterprise_system.Prelude.{
  ℕ, max, ◌≡◌, ◌||◌, ◌∙◌, ap, Bool, true, false, Option, List, [], ◌∷◌, map, filter, length, ltb,
  any, if◌then◌else◌, Text, Except, ok, throw, refl, arith,
}
use enterprise_system.Observability.Health.{
  HealthStatus, healthy, degraded, unhealthy, DependencyHealth, is_unhealthy, is_degraded,
  calculate_overall_status, settled, check_readiness,
}

-- How bad a status is.
abbrev pub rank : HealthStatus → ℕ
rank healthy = 0
rank degraded = 1
rank unhealthy = 2

-- The highest of some ranks.
abbrev pub highest : List ℕ → ℕ
highest [] = 0
highest (n ∷ ns) = max n (highest ns)

any-filter : {A : Type 0} (p : A → Bool) (xs : List A) → ltb 0 (length (filter p xs)) ≡ any p xs
unfolding filter any
any-filter p [] = refl
any-filter p (x ∷ xs) = ground (arith, any-filter p xs)

-- The status that is found by the two tests.
abbrev found : Bool → Bool → HealthStatus
found some_unhealthy some_degraded =
    if some_unhealthy then unhealthy else if some_degraded then degraded else healthy

found-highest :
    (deps : List DependencyHealth)
    → rank (found (any is_unhealthy deps) (any is_degraded deps))
      ≡ highest (map (λ d. rank d.status) deps)
unfolding any is_unhealthy is_degraded
found-highest [] = refl
found-highest (d ∷ deps) =
    step d.status (any is_unhealthy deps) (any is_degraded deps)
    ∙ ap (max (rank d.status)) (found-highest deps)
  where
    step :
        (s : HealthStatus) (u g : Bool)
        → rank (
            found
              (elim s [ healthy ↦ false | degraded ↦ false | unhealthy ↦ true ] || u)
              (elim s [ healthy ↦ false | degraded ↦ true | unhealthy ↦ false ] || g))
          ≡ max (rank s) (rank (found u g))
    step healthy u g = omega arith
    step degraded true g = omega arith
    step degraded false true = omega arith
    step degraded false false = omega arith
    step unhealthy true g = omega arith
    step unhealthy false true = omega arith
    step unhealthy false false = omega arith

-- How bad the outcome of a check is: a check that was rejected is as bad as an unhealthy dependency.
abbrev pub reported : Except (Option Text) DependencyHealth → ℕ
reported (ok h) = rank h.status
reported (throw e) = 2

map-settled :
    (results : List (Except (Option Text) DependencyHealth))
    → map (λ d. rank d.status) (map settled results) ≡ map reported results
unfolding settled
map-settled [] = refl
map-settled (ok h ∷ results) = ap (λ ns. rank h.status ∷ ns) (map-settled results)
map-settled (throw e ∷ results) = ap (λ ns. 2 ∷ ns) (map-settled results)

-- The program is as healthy as the worst of its dependencies, and healthy without any; a check that was rejected
-- counts as an unhealthy dependency.
pub check_readiness-highest :
    (version : Text) (start_time now : ℕ) (results : List (Except (Option Text) DependencyHealth))
    → rank (check_readiness version start_time now results).status ≡ highest (map reported results)
unfolding check_readiness calculate_overall_status
check_readiness-highest version start_time now results =
    let deps = map settled results in
    ap₂ (λ u g. rank (found u g)) (any-filter is_unhealthy deps) (any-filter is_degraded deps)
    ∙ found-highest deps
    ∙ ap highest (map-settled results)
