-- ===== src/Tests/Http.antt =====
-- The HTTP client's circuit on concrete requests.
use enterprise_system.Prelude.{ℕ, ◌+◌, ◌≡◌, Bool, true, none, some, throw, arith, refl}
use enterprise_system.Infrastructure.HttpClient.{
  opened, new_circuit, Overrides, Reply, AxiosError, request, is_retryable_error,
}
use enterprise_system.Infrastructure.HttpClient.Counters.{IsSound}
use enterprise_system.Infrastructure.HttpClient.Opened.{request-Failing}

abbrev unavailable : AxiosError
unavailable = record { status = some 503; code = none; message = none }

abbrev down : ℕ → Reply Bool
down attempt = record { result = throw unavailable; at = 1000 + attempt }

-- The circuit opens at the second failure.
abbrev strict : Overrides
strict = record { failure_threshold = some 2 }

retryable : is_retryable_error unavailable ≡ true
unfolding is_retryable_error
retryable = refl

request-Failing_example :
    ((request down strict 3 500 new_circuit).attempts ≡ 3)
    × ((request down strict 3 500 new_circuit).circuit.state ≡ opened)
request-Failing_example = request-Failing down strict 3 500 new_circuit refl (omega arith) (
  (unavailable, refl, retryable),
  ((unavailable, refl, retryable), ((unavailable, refl, retryable), tt)),
)

sound : IsSound strict new_circuit
sound = record { failures = λ h. omega arith; successes = λ h. omega arith }
