-- ===== src/Common/CircuitBreaker/Interleaving.antt =====
-- Many calls of one circuit in flight: the halves of calls in any order.
use enterprise_system.Prelude.{ℕ, ◌+◌, ◌≤◌, ◌<◌, ◌≡◌, ◌≢◌, List, [], ◌∷◌, arith}
use enterprise_system.Common.CircuitBreaker.{
  closed, opened, half_open, Options, CircuitBreaker, initial, start, on_success, on_failure, reset,
}

-- What the code does without another call between: the first half of a call, the two ways that the
-- second half ends, and a reset.
pub data Event : Type 0 where
  starts : ℕ → Event
  succeeds : Event
  fails : (failed later : ℕ) → Event
  resets : Event

unfoldable pub step : Options → Event → CircuitBreaker → CircuitBreaker
unfolding start on_success on_failure reset
step opts (starts now) c = (start now c).1
step opts succeeds c = on_success opts c
step opts (fails failed later) c = on_failure opts failed later c
step opts resets c = reset c

unfoldable pub steps : Options → List Event → CircuitBreaker → CircuitBreaker
steps opts [] c = c
steps opts (e ∷ es) c = steps opts es (step opts e c)

-- A closed circuit is short of the failures that open it, a half-open one is short of the successes
-- that close it, and the others count no success.
pub record IsSound (opts : Options) (c : CircuitBreaker) : Type 0 where
  pub failures : c.state ≡ closed → c.failure_count < opts.failure_threshold
  pub successes : c.success_count < opts.success_threshold
  pub counting : c.state ≢ half_open → c.success_count ≡ 0

module _ (opts : Options) (some_failure : 1 ≤ opts.failure_threshold)
    (some_success : 1 ≤ opts.success_threshold) where
  step-IsSound : (e : Event) (c : CircuitBreaker) → IsSound opts c → IsSound opts (step opts e c)
  unfolding step
  step-IsSound (starts now) c s = ground (arith, s.failures, s.counting)
  step-IsSound succeeds c s = ground (arith, s.failures, s.counting)
  step-IsSound (fails failed later) c s = ground (arith, s.failures, s.counting)
  step-IsSound resets c s = ground arith

  steps-IsSound :
      (es : List Event) (c : CircuitBreaker) → IsSound opts c → IsSound opts (steps opts es c)
  unfolding steps
  steps-IsSound [] c s = s
  steps-IsSound (e ∷ es) c s = steps-IsSound es (step opts e c) (step-IsSound e c s)

  -- From the start, with thresholds of at least 1, after any events in any order: a closed circuit has
  -- fewer failures than open it, a half-open one fewer successes than close it, and no other state has
  -- a success counted.
  pub initial-IsSound : (es : List Event) → IsSound opts (steps opts es initial)
  initial-IsSound es = steps-IsSound es initial (ground arith)

-- The events that happen before a time: a start reads an earlier one, and a failure, which may put
-- the next attempt off, does not bring it forward. There is no reset.
abbrev Before : Options → ℕ → List Event → Type 0
Before opts t [] = Unit
Before opts t (starts now ∷ es) = (now < t) × Before opts t es
Before opts t (succeeds ∷ es) = Before opts t es
Before opts t (fails failed later ∷ es) = (t ≤ later + opts.reset_timeout_ms) × Before opts t es
Before opts t (resets ∷ es) = ⊥

-- An open circuit stays open, and its time is not brought forward, while calls start before a time `t` not
-- after it, and others succeed, or fail at times that put the next attempt at `t` or later; there is no
-- reset.
pub steps-opened :
    (opts : Options) (t : ℕ) (es : List Event) (c : CircuitBreaker)
    → Before opts t es
    → c.state ≡ opened
    → t ≤ c.next_attempt_time
    → ((steps opts es c).state ≡ opened) × (t ≤ (steps opts es c).next_attempt_time)
unfolding steps
steps-opened opts t [] c b o h = (o, h)
steps-opened opts t (starts now ∷ es) c (p, b) o h =
    steps-opened opts t es _ b (unfold step in ground arith) (unfold step in ground arith)
steps-opened opts t (succeeds ∷ es) c b o h =
    steps-opened opts t es _ b (unfold step in ground arith) (unfold step in ground arith)
steps-opened opts t (fails failed later ∷ es) c (p, b) o h =
    steps-opened opts t es _ b (unfold step in ground arith) (unfold step in ground arith)
steps-opened opts t (resets ∷ es) c b o h = absurd b
