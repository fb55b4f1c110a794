-- ===== src/Infrastructure/HttpClient.antt =====
-- `HttpClientService` (src/infrastructure/external-services/http-client.service.ts). What a request of a
-- client does is an argument, and so are the readings of the clock. The logger and the options of axios
-- are not modelled.
pub mod Retryable
pub mod Opened
pub mod Counters
pub use Retryable.{AxiosError}
unfoldable pub use Retryable.{is_retryable_error}
use enterprise_system.Prelude.{
  ℕ, zero, suc, ◌+◌, ◌-◌, ◌*◌, ◌/◌, Bool, true, false, Option, none, some, List, [], ◌∷◌, ◌++◌, ltb,
  leb, if◌then◌else◌, Text, Except, ok, throw, is_some,
}
use enterprise_system.Prelude.Dict.{Dict, lookup, insert}

pub data CircuitState : Type 0 where
  closed opened half_open : CircuitState

pub record CircuitBreakerOptions : Type 0 where
  pub failure_threshold : ℕ
  pub reset_timeout_ms : ℕ
  pub half_open_max_attempts : ℕ
  pub monitoring_window_ms : ℕ

pub record Circuit : Type 0 where
  pub state : CircuitState
  pub failures : ℕ
  pub last_failure_time : ℕ
  pub half_open_attempts : ℕ
  pub successes : ℕ

abbrev pub default_options : CircuitBreakerOptions
default_options = record {
  failure_threshold = 5;
  reset_timeout_ms = 30000;
  half_open_max_attempts = 3;
  monitoring_window_ms = 60000;
}

-- `initCircuit`
abbrev pub new_circuit : Circuit
new_circuit = record {
  state = closed;
  failures = 0;
  last_failure_time = 0;
  half_open_attempts = 0;
  successes = 0;
}

-- The options that a client was made with: the failure threshold is the only one that the code reads.
pub record Overrides : Type 0 where
  pub failure_threshold : Option ℕ

abbrev pub no_overrides : Overrides
no_overrides = record { failure_threshold = none }

-- What the service keeps under a name: the entries of the two maps, which are made together.
pub record Client : Type 0 where
  pub overrides : Overrides
  pub circuit : Circuit

-- `getClient`, whose options count when the name is new.
unfoldable pub get_client : Text → Overrides → Dict Client → Dict Client
unfolding lookup insert
get_client name o clients = elim (lookup name clients) [
  | some c ↦ clients
  | none ↦ insert name (record { overrides = o; circuit = new_circuit }) clients
]

-- `{ ...defaults, ...overrides }.failureThreshold`
abbrev pub threshold : Overrides → ℕ
threshold o = elim o.failure_threshold [ none ↦ default_options.failure_threshold | some n ↦ n ]

-- What `checkCircuit` throws, with the seconds after which to retry.
pub data Refusal : Type 0 where
  circuit_open : ℕ → Refusal

-- `checkCircuit` on the circuit of a name.
unfoldable pub check_circuit : ℕ → Circuit → Except Refusal (Unit {0}) × Circuit
check_circuit now c = elim c.state [
  | closed ↦ (ok tt, c)
  | half_open ↦ (ok tt, c)
  | opened ↦
      if leb (c.last_failure_time + default_options.reset_timeout_ms) now
      then (ok tt, record c { state = half_open; half_open_attempts = 0; successes = 0 })
      else (
        throw (
            circuit_open
              ((c.last_failure_time + default_options.reset_timeout_ms - now + 999) / 1000)),
        c,
      )
]

-- The second half of `recordSuccess`, which a circuit that has just closed goes through too.
unfoldable pub ease : ℕ → Circuit → Circuit
ease now c =
    if ltb now (c.last_failure_time + default_options.monitoring_window_ms)
    then record c { failures = c.failures - 1 }
    else c

-- `recordSuccess`
unfoldable pub record_success : ℕ → Circuit → Circuit
unfolding ease
record_success now c = elim c.state [
  | closed ↦ ease now c
  | opened ↦ c
  | half_open ↦
      if leb default_options.half_open_max_attempts (c.successes + 1)
      then ease now (record c { successes = c.successes + 1; state = closed; failures = 0 })
      else record c { successes = c.successes + 1 }
]

-- `recordFailure`
unfoldable pub record_failure : ℕ → Overrides → Circuit → Circuit
record_failure now o c =
    let counted = record c { failures = c.failures + 1; last_failure_time = now } in
    elim c.state [
      | half_open ↦ record counted { state = opened }
      | opened ↦ counted
      | closed ↦
          if leb (threshold o) (c.failures + 1) then record counted { state = opened } else counted
    ]

-- What one request of the client does, and the time that the interceptor reads.
pub record Reply (A : Type 0) : Type 0 where
  pub result : Except AxiosError A
  pub at : ℕ

-- The response interceptors, on the circuit of the client.
unfoldable pub intercept : {A : Type 0} → Overrides → Reply A → Circuit → Circuit
unfolding record_success record_failure is_retryable_error
intercept o r c = elim r.result [
  | ok a ↦ record_success r.at c
  | throw e ↦ if is_retryable_error e then record_failure r.at o c else c
]

-- What `request` throws: the refusal of the circuit, the last error, or `null` if it made no attempt.
pub data Failure : Type 0 where
  refused : Refusal → Failure
  failed : Option AxiosError → Failure

pub record Outcome (A : Type 0) : Type 0 where
  pub result : Except Failure A
  pub attempts : ℕ
  pub circuit : Circuit

module _ {A : Type 0} (send : ℕ → Reply A) (o : Overrides) where
  -- The loop of `request` from `attempt` on, with `left` rounds left, and the last error.
  unfoldable pub attempts_from : ℕ → ℕ → Option AxiosError → Circuit → Outcome A
  unfolding intercept is_retryable_error
  attempts_from zero attempt last c = record {
    result = throw (failed last);
    attempts = attempt - 1;
    circuit = c;
  }
  attempts_from (suc left) attempt last c =
      let d = intercept o (send attempt) c in
      elim (send attempt).result [
        | ok a ↦ record { result = ok a; attempts = attempt; circuit = d }
        | throw e ↦
            let more = attempts_from left (attempt + 1) (some e) d in
            if is_retryable_error e
            then more
            else record { result = throw (failed (some e)); attempts = attempt; circuit = d }
      ]

  -- `request` on a client that exists: the circuit is checked once, before the attempts.
  unfoldable pub request : ℕ → ℕ → Circuit → Outcome A
  unfolding check_circuit attempts_from
  request max_retries now c =
      let (r, d) = check_circuit now c in
      elim r [
        | ok u ↦ attempts_from max_retries 1 none d
        | throw e ↦ record { result = throw (refused e); attempts = 0; circuit = d }
      ]

module _ {A : Type 0} (send : ℕ → Reply A) where
  abbrev answered : Text → Overrides → Outcome A → Dict Client → Except Failure A × Dict Client
  answered name o r clients =
      (r.result, insert name (record { overrides = o; circuit = r.circuit }) clients)

  -- `request` by the name of a client, which is made without options if there is none.
  unfoldable pub request_named : Text → ℕ → ℕ → Dict Client → Except Failure A × Dict Client
  unfolding request attempts_from get_client lookup insert
  request_named name max_retries now clients = elim (lookup name clients) [
    | some c ↦
        answered name c.overrides (request send c.overrides max_retries now c.circuit) clients
    | none ↦
        answered name no_overrides (attempts_from send no_overrides max_retries 1 none new_circuit)
          (get_client name no_overrides clients)
  ]
