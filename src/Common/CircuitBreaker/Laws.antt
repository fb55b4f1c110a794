-- ===== src/Common/CircuitBreaker/Laws.antt =====
-- When a circuit opens, rejects and closes.
use enterprise_system.Prelude.{
  ℕ, zero, suc, Bool-cases, ◌+◌, ◌≤◌, ◌<◌, ◌≡◌, ◌≢◌, ◌⊎◌, inl, inr, ltb, leb, List, [], ◌∷◌, length,
  arith, if◌then◌else◌, Except, ok, throw,
}
use enterprise_system.Common.CircuitBreaker.{
  closed, opened, half_open, Options, CircuitBreaker, circuit_open, Thrown, rejected, failure,
  on_success, on_failure, Times, execute,
}

-- An open circuit whose time has not come rejects the call with that time, does not call the function
-- (whatever it would do has no effect), and stays as it is.
pub execute-opened :
    {E A : Type 0} (opts : Options) (t : Times) (result : Except E A) (c : CircuitBreaker)
    → c.state ≡ opened
    → t.called < c.next_attempt_time
    → execute opts t result c ≡ (throw (rejected (circuit_open c.next_attempt_time)), c)
unfolding execute
execute-opened opts t result c o h = ground arith

-- What a call returns or throws if the function is called.
abbrev passed : {E A : Type 0} → Except E A → Except (Thrown E) A
passed (ok a) = ok a
passed (throw e) = throw (failure e)

-- The function is called in every other case, and its value or its error is what comes back.
pub execute-called :
    {E A : Type 0} (opts : Options) (t : Times) (result : Except E A) (c : CircuitBreaker)
    → (c.state ≢ opened) ⊎ (c.next_attempt_time ≤ t.called)
    → (execute opts t result c).0 ≡ passed result
unfolding execute
execute-called opts t (ok a) c h = ground arith
execute-called opts t (throw e) c h = ground arith

-- Failures one after the other, with the times that each reads.
abbrev pub fail_all : Options → List (ℕ × ℕ) → CircuitBreaker → CircuitBreaker
fail_all opts [] c = c
fail_all opts ((f, l) ∷ ts) c = fail_all opts ts (on_failure opts f l c)

fail_all-opened :
    (opts : Options) (ts : List (ℕ × ℕ)) (c : CircuitBreaker)
    → c.state ≡ opened
    → opts.failure_threshold ≤ c.failure_count
    → (fail_all opts ts c).state ≡ opened
fail_all-opened opts [] c o h = o
fail_all-opened opts ((f, l) ∷ ts) c o h =
    fail_all-opened opts ts (on_failure opts f l c) (unfold on_failure in ground arith)
      (unfold on_failure in ground arith)

on_failure-count :
    (opts : Options) (f l : ℕ) (c : CircuitBreaker)
    → (on_failure opts f l c).failure_count ≡ c.failure_count + 1
unfolding on_failure
on_failure-count opts f l c = ground arith

on_failure-state :
    (opts : Options) (f l : ℕ) (c : CircuitBreaker)
    → c.state ≡ closed
    → (on_failure opts f l c).state
      ≡ (if leb opts.failure_threshold (c.failure_count + 1) then opened else closed)
unfolding on_failure
on_failure-state opts f l c o = ground arith

-- A closed circuit opens at the failure that reaches the threshold, counting those since the last
-- success, and not before.
pub fail_all-state :
    (opts : Options) (ts : List (ℕ × ℕ)) (c : CircuitBreaker)
    → c.state ≡ closed
    → c.failure_count < opts.failure_threshold
    → (fail_all opts ts c).state
      ≡ (if ltb (c.failure_count + length ts) opts.failure_threshold then closed else opened)
fail_all-state opts [] c o h = ground arith
fail_all-state opts ((f, l) ∷ ts) c o h =
    let n = on_failure-count opts f l c in
    let s = on_failure-state opts f l c o in
    elim (Bool-cases (leb opts.failure_threshold (c.failure_count + 1))) [
      | inl e ↦
          let opening =
            fail_all-opened opts ts (on_failure opts f l c) (rw e at s) (ground arith) in
          ground arith
      | inr e ↦
          let rest = fail_all-state opts ts (on_failure opts f l c) (rw e at s) (ground arith) in
          ground arith
    ]

-- Successes one after the other.
abbrev pub succeed_times : Options → ℕ → CircuitBreaker → CircuitBreaker
succeed_times opts zero c = c
succeed_times opts (suc n) c = succeed_times opts n (on_success opts c)

succeed_times-closed :
    (opts : Options) (n : ℕ) (c : CircuitBreaker)
    → c.state ≡ closed
    → (succeed_times opts n c).state ≡ closed
succeed_times-closed opts zero c o = o
succeed_times-closed opts (suc n) c o =
    succeed_times-closed opts n (on_success opts c) (unfold on_success in ground arith)

-- A half-open circuit closes at the success that reaches the threshold, and not before.
pub succeed_times-state :
    (opts : Options) (n : ℕ) (c : CircuitBreaker)
    → c.state ≡ half_open
    → c.success_count < opts.success_threshold
    → (succeed_times opts n c).state
      ≡ (if ltb (c.success_count + n) opts.success_threshold then half_open else closed)
succeed_times-state opts zero c o h = ground arith
succeed_times-state opts (suc n) c o h =
    elim (Bool-cases (leb opts.success_threshold (c.success_count + 1))) [
      | inl e ↦
          let closing =
            succeed_times-closed opts n (on_success opts c) (unfold on_success in ground arith) in
          ground arith
      | inr e ↦
          let s : (on_success opts c).state ≡ half_open = unfold on_success in ground arith in
          let k : (on_success opts c).success_count ≡ c.success_count + 1 =
            unfold on_success in ground arith in
          let rest = succeed_times-state opts n (on_success opts c) s (ground arith) in ground arith
    ]
