-- ===== src/Infrastructure/HttpClient/Opened.antt =====
-- What `request` does on an open circuit, and with an error at every attempt.
use enterprise_system.Prelude.{
  ℕ, zero, suc, ◌+◌, ◌-◌, ◌/◌, ◌≤◌, ◌<◌, ◌≡◌, Option, none, some, ok, throw, arith, refl, ap, ◌∙◌,
  Bool-cases, inl, inr, true, ltb, leb, if◌then◌else◌,
}
use enterprise_system.Infrastructure.HttpClient.{
  closed, opened, Circuit, Overrides, threshold, check_circuit, record_failure, Reply, intercept,
  AxiosError, is_retryable_error, attempts_from, request, refused, circuit_open,
}

check_circuit-opened :
    (now : ℕ) (c : Circuit)
    → c.state ≡ opened
    → now < c.last_failure_time + 30000
    → check_circuit now c
      ≡ (throw (circuit_open ((c.last_failure_time + 30000 - now + 999) / 1000)), c)
unfolding check_circuit
check_circuit-opened now c s h = ground arith

check_circuit-closed : (now : ℕ) (c : Circuit) → c.state ≡ closed → check_circuit now c ≡ (ok tt, c)
unfolding check_circuit
check_circuit-closed now c s = ground arith

record_failure-closed :
    (now : ℕ) (o : Overrides) (c : Circuit)
    → c.state ≡ closed
    → ((record_failure now o c).failures ≡ c.failures + 1)
      × ((record_failure now o c).state
          ≡ (if leb (threshold o) (c.failures + 1) then opened else closed))
unfolding record_failure
record_failure-closed now o c s = (ground arith, ground arith)

record_failure-opened :
    (now : ℕ) (o : Overrides) (c : Circuit)
    → c.state ≡ opened
    → (record_failure now o c).state ≡ opened
unfolding record_failure
record_failure-opened now o c s = ground arith

module _ {A : Type 0} (send : ℕ → Reply A) (o : Overrides) where
  -- An open circuit whose time has not come refuses the request, with the seconds that are left rounded
  -- up; no attempt is made, and the circuit stays as it is.
  pub request-opened :
      (max_retries now : ℕ) (c : Circuit)
      → c.state ≡ opened
      → now < c.last_failure_time + 30000
      → request send o max_retries now c ≡ record {
        result = throw (refused (circuit_open ((c.last_failure_time + 30000 - now + 999) / 1000)));
        attempts = 0;
        circuit = c;
      }
  unfolding request
  request-opened max_retries now c s h =
      let e = check_circuit-opened now c s h in rw (e, request) (rw (ap (λ x. x.1) e) refl)

  -- The circuit after failures at the times of the attempts from `a` on, `k` of them.
  abbrev pub failures_from : ℕ → ℕ → Circuit → Circuit
  failures_from a zero c = c
  failures_from a (suc k) c = failures_from (a + 1) k (record_failure (send a).at o c)

  -- The attempts from `a` on, `k` of them, fail with errors that may be retried; the last error.
  abbrev pub Failing : ℕ → ℕ → Type 0
  Failing a zero = Unit {0}
  Failing a (suc k) =
      ((e : AxiosError) × ((send a).result ≡ throw e) × (is_retryable_error e ≡ true))
      × Failing (a + 1) k

  intercept-Failing :
      (a : ℕ) (x : AxiosError) (c : Circuit)
      → (send a).result ≡ throw x
      → is_retryable_error x ≡ true
      → intercept o (send a) c ≡ record_failure (send a).at o c
  unfolding intercept
  intercept-Failing a x c e r = rw e (rw r refl)

  attempts_from-Failing :
      (k a : ℕ) (last : Option AxiosError) (c : Circuit)
      → 1 ≤ a
      → Failing a k
      → ((attempts_from send o k a last c).attempts ≡ a + k - 1)
        × ((attempts_from send o k a last c).circuit ≡ failures_from a k c)
  unfolding attempts_from
  attempts_from-Failing zero a last c p f = (omega arith, refl)
  attempts_from-Failing (suc k) a last c p ((x, e, r), f) =
      let i = intercept-Failing a x c e r in
      let (n, d) =
        attempts_from-Failing k (a + 1) (some x) (record_failure (send a).at o c) (omega arith) f in
      rw (e, attempts_from) (rw r (rw i (n ∙ omega arith, d)))

  failures_from-opened :
      (k a : ℕ) (c : Circuit) → c.state ≡ opened → (failures_from a k c).state ≡ opened
  failures_from-opened zero a c s = s
  failures_from-opened (suc k) a c s =
      failures_from-opened k (a + 1) _ (record_failure-opened (send a).at o c s)

  failures_from-state :
      (k a : ℕ) (c : Circuit)
      → c.state ≡ closed
      → c.failures < threshold o
      → (failures_from a k c).state
        ≡ (if ltb (c.failures + k) (threshold o) then closed else opened)
  failures_from-state zero a c s h = ground arith
  failures_from-state (suc k) a c s h =
      let (n, t) = record_failure-closed (send a).at o c s in
      elim (Bool-cases (leb (threshold o) (c.failures + 1))) [
        | inl e ↦
            let stays =
              failures_from-opened k (a + 1) (record_failure (send a).at o c) (rw e at t) in
            ground arith
        | inr e ↦
            let rest =
              failures_from-state k (a + 1) (record_failure (send a).at o c) (rw e at t)
                (ground arith) in
            ground arith
      ]

  -- If every attempt fails with an error that may be retried, a request on a closed circuit makes all of
  -- them, even those after the circuit has opened; and the circuit is open afterwards exactly if the
  -- failures counted before and the attempts reach the threshold of the client.
  pub request-Failing :
      (max_retries now : ℕ) (c : Circuit)
      → c.state ≡ closed
      → c.failures < threshold o
      → Failing 1 max_retries
      → ((request send o max_retries now c).attempts ≡ max_retries)
        × ((request send o max_retries now c).circuit.state
            ≡ (if ltb (c.failures + max_retries) (threshold o) then closed else opened))
  unfolding request
  request-Failing max_retries now c s h f =
      let (n, d) = attempts_from-Failing max_retries 1 none c (omega arith) f in
      let e = check_circuit-closed now c s in
      rw (e, request)
        (rw (ap (λ x. x.1) e) (
          n ∙ omega arith,
          ap (λ (x : Circuit). x.state) d ∙ failures_from-state max_retries 1 c s h,
        ))
