-- ===== src/Tests/Resilience.antt =====
-- The circuit breaker and `retry` on concrete calls.
use enterprise_system.Prelude.{
  ℕ, ◌+◌, if◌then◌else◌, ◌≡◌, Bool, true, some, refl, List, [], ◌∷◌, Except, ok, throw, arith, ◌==◌,
}
use enterprise_system.Common.CircuitBreaker.{
  opened, half_open, default_circuit_options, CircuitBreaker, initial, Times,
}
use enterprise_system.Common.CircuitBreaker.Interleaving.{
  Event, starts, succeeds, fails, steps, IsSound, initial-IsSound,
}
use enterprise_system.Common.Retry.{RetryOptions, retry}
use enterprise_system.Common.Retry.Laws.{retry-Ends, retry-fails}

abbrev tripped : CircuitBreaker
tripped = record {
  state = opened;
  failure_count = 5;
  success_count = 0;
  last_failure_time = 100;
  next_attempt_time = 30100;
}

abbrev at : ℕ → Times
at t = record { called = t; failed = t + 1; later = t + 2 }

abbrev value : Except ℕ Bool
value = ok true

abbrev error : Except ℕ Bool
error = throw 7

abbrev never : ℕ → Except ℕ ℕ
never n = throw 5

abbrev five_failures : List (ℕ × ℕ)
five_failures = (1, 1) ∷ (2, 2) ∷ (3, 3) ∷ (4, 4) ∷ (5, 5) ∷ []

abbrev recovering : CircuitBreaker
recovering = record tripped { state = half_open }

abbrev overlapping : List Event
overlapping = starts 1 ∷ starts 2 ∷ fails 3 3 ∷ succeeds ∷ []

initial-IsSound_example :
    IsSound default_circuit_options (steps default_circuit_options overlapping initial)
initial-IsSound_example =
    initial-IsSound default_circuit_options (omega arith) (omega arith) overlapping

abbrev options : RetryOptions ℕ
options = record { max_attempts = 3; is_retryable = some (λ e. e == 5) }

-- Two errors that may be retried, and then a value.
abbrev third_time : ℕ → Except ℕ ℕ
third_time n = if n == 3 then ok 9 else throw 5

retry-Ends_example :
    retry third_time options ≡ record { result = ok 9; attempts = 3; waits = 1 ∷ 2 ∷ [] }
retry-Ends_example =
    retry-Ends third_time options 2 (ok 9) (omega arith) ((5, refl, refl), ((5, refl, refl), tt))
      refl tt

retry-fails_example :
    retry never options ≡ record { result = throw (some 5); attempts = 3; waits = 1 ∷ 2 ∷ [] }
retry-fails_example =
    retry-fails never options 2 5 refl ((5, refl, refl), ((5, refl, refl), ((5, refl, refl), tt)))
      refl
