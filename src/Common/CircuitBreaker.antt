-- ===== src/Common/CircuitBreaker.antt =====
-- `CircuitBreaker` (src/common/utils/async.util.ts). A time is the value of `Date.now()` at the place
-- where the code reads it. A call of the wrapped function has two halves, before and after it is
-- awaited, between which other calls may run.
pub mod Laws
pub mod Interleaving
use enterprise_system.Prelude.{
  ℕ, ◌+◌, Bool, true, false, ◌&&◌, leb, if◌then◌else◌, Except, ok, throw,
}

pub data CircuitState : Type 0 where
  closed opened half_open : CircuitState

pub record Options : Type 0 where
  pub failure_threshold : ℕ
  pub reset_timeout_ms : ℕ
  pub success_threshold : ℕ

abbrev pub default_circuit_options : Options
default_circuit_options = record {
  failure_threshold = 5;
  reset_timeout_ms = 30000;
  success_threshold = 3;
}

pub record CircuitBreaker : Type 0 where
  pub state : CircuitState
  pub failure_count : ℕ
  pub success_count : ℕ
  pub last_failure_time : ℕ
  pub next_attempt_time : ℕ

abbrev pub initial : CircuitBreaker
initial = record {
  state = closed;
  failure_count = 0;
  success_count = 0;
  last_failure_time = 0;
  next_attempt_time = 0;
}

-- `CircuitOpenError`, with the time at which to retry.
pub data CircuitOpenError : Type 0 where
  circuit_open : ℕ → CircuitOpenError

abbrev is_open : CircuitState → Bool
is_open opened = true
is_open _ = false

abbrev is_half_open : CircuitState → Bool
is_half_open half_open = true
is_half_open _ = false

-- `transitionTo`; its callback is not modelled.
abbrev pub transition_to : CircuitState → CircuitBreaker → CircuitBreaker
transition_to s c = record c { state = s }

-- The getter `state`, which leaves the open state once the time has come.
unfoldable pub read_state : ℕ → CircuitBreaker → CircuitBreaker
read_state now c =
    if is_open c.state && leb c.next_attempt_time now then transition_to half_open c else c

-- The first half of `execute`: the state is read, and an open circuit throws.
unfoldable pub start : ℕ → CircuitBreaker → Except CircuitOpenError (Unit {0}) × CircuitBreaker
unfolding read_state
start now c =
    let d = read_state now c in
    (if is_open d.state then throw (circuit_open d.next_attempt_time) else ok tt, d)

unfoldable pub on_success : Options → CircuitBreaker → CircuitBreaker
on_success opts c =
    if is_half_open c.state
    then if leb opts.success_threshold (c.success_count + 1)
      then record c { state = closed; failure_count = 0; success_count = 0 }
      else record c { success_count = c.success_count + 1 }
    else record c { failure_count = 0 }

-- `failed` and `later` are the two times that the clock is read.
unfoldable pub on_failure : Options → ℕ → ℕ → CircuitBreaker → CircuitBreaker
on_failure opts failed later c =
    if is_half_open c.state
    then record c {
      state = opened;
      failure_count = c.failure_count + 1;
      success_count = 0;
      last_failure_time = failed;
      next_attempt_time = later + opts.reset_timeout_ms;
    }
    else if leb opts.failure_threshold (c.failure_count + 1)
    then record c {
      state = opened;
      failure_count = c.failure_count + 1;
      last_failure_time = failed;
      next_attempt_time = later + opts.reset_timeout_ms;
    }
    else record c { failure_count = c.failure_count + 1; last_failure_time = failed }

-- The times that one call reads.
pub record Times : Type 0 where
  pub called : ℕ
  pub failed : ℕ
  pub later : ℕ

-- What `execute` throws: its own error, or that of the function.
pub data Thrown (E : Type 0) : Type 0 where
  rejected : CircuitOpenError → Thrown E
  failure : E → Thrown E

module _ {E A : Type 0} where
  -- The second half of `execute`.
  unfoldable pub settle :
      Options → Times → Except E A → CircuitBreaker → Except (Thrown E) A × CircuitBreaker
  unfolding on_success on_failure
  settle opts t (ok a) c = (ok a, on_success opts c)
  settle opts t (throw e) c = (throw (failure e), on_failure opts t.failed t.later c)

  -- A whole call in which no other call runs; `result` is what the function does if it is called.
  unfoldable pub execute :
      Options → Times → Except E A → CircuitBreaker → Except (Thrown E) A × CircuitBreaker
  unfolding start settle
  execute opts t result c =
      let (r, d) = start t.called c in
      (elim r [ throw e ↦ (throw (rejected e), d) | ok u ↦ settle opts t result d ])

-- `reset`
unfoldable pub reset : CircuitBreaker → CircuitBreaker
reset c = initial
