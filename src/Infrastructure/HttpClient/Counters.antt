-- ===== src/Infrastructure/HttpClient/Counters.antt =====
-- The counters of a circuit, whatever the requests do.
use enterprise_system.Prelude.{
  ℕ, zero, suc, ◌+◌, ◌≤◌, ◌<◌, ◌≡◌, Option, none, some, arith, Bool-cases, Except-cases, inl, inr,
}
use enterprise_system.Infrastructure.HttpClient.{
  closed, half_open, Circuit, Overrides, threshold, check_circuit, record_success, record_failure,
  Reply, intercept, AxiosError, is_retryable_error, attempts_from, request,
}

-- A closed circuit is short of the failures that open it, and a half-open one of the successes that close
-- it.
pub record IsSound (o : Overrides) (c : Circuit) : Type 0 where
  pub failures : c.state ≡ closed → c.failures < threshold o
  pub successes : c.state ≡ half_open → c.successes < 3

module _ (o : Overrides) (some_failure : 1 ≤ threshold o) where
  check_circuit-IsSound : (now : ℕ) (c : Circuit) → IsSound o c → IsSound o (check_circuit now c).1
  unfolding check_circuit
  check_circuit-IsSound now c s = ground (arith, s.failures, s.successes)

  record_success-IsSound : (now : ℕ) (c : Circuit) → IsSound o c → IsSound o (record_success now c)
  unfolding record_success
  record_success-IsSound now c s = ground (arith, s.failures, s.successes)

  record_failure-IsSound :
      (now : ℕ) (c : Circuit) → IsSound o c → IsSound o (record_failure now o c)
  unfolding record_failure
  record_failure-IsSound now c s = ground (arith, s.failures, s.successes)

  intercept-IsSound :
      {A : Type 0} (r : Reply A) (c : Circuit) → IsSound o c → IsSound o (intercept o r c)
  unfolding intercept
  intercept-IsSound r c s = elim (Except-cases r.result) [
    | inl (a, e) ↦ rw e (record_success-IsSound r.at c s)
    | inr (x, e) ↦ elim (Bool-cases (is_retryable_error x)) [
      | inl f ↦ rw e (rw f (record_failure-IsSound r.at c s))
      | inr f ↦ rw e (rw f s)
    ]
  ]

  module _ {A : Type 0} (send : ℕ → Reply A) where
    attempts_from-IsSound :
        (left attempt : ℕ) (last : Option AxiosError) (c : Circuit)
        → IsSound o c
        → IsSound o (attempts_from send o left attempt last c).circuit
    unfolding attempts_from
    attempts_from-IsSound zero attempt last c s = s
    attempts_from-IsSound (suc left) attempt last c s =
        let d = intercept-IsSound (send attempt) c s in
        elim (Except-cases (send attempt).result) [
          | inl (a, e) ↦ rw (e, attempts_from) d
          | inr (x, e) ↦ elim (Bool-cases (is_retryable_error x)) [
            | inl f ↦
                rw (e, attempts_from) (rw f (attempts_from-IsSound left (attempt + 1) (some x) _ d))
            | inr f ↦ rw (e, attempts_from) (rw f d)
          ]
        ]

    -- With a threshold of at least 1, a request keeps this: a closed circuit has fewer failures than the
    -- threshold of its client, and a half-open one fewer than 3 successes.
    pub request-IsSound :
        (max_retries now : ℕ) (c : Circuit)
        → IsSound o c
        → IsSound o (request send o max_retries now c).circuit
    unfolding request
    request-IsSound max_retries now c s =
        let d = check_circuit-IsSound now c s in
        elim (Except-cases (check_circuit now c).0) [
          | inl (a, e) ↦ rw (e, request) (attempts_from-IsSound max_retries 1 none _ d)
          | inr (x, e) ↦ rw (e, request) d
        ]
