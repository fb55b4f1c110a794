-- ===== src/Common/Retry.antt =====
-- `retry` (src/common/utils/async.util.ts). What each attempt does is an argument, and so is the test
-- `isRetryable`, which may be absent. The waits between attempts are recorded, and their lengths,
-- which are random, are not modelled.
pub mod Laws
use enterprise_system.Prelude.{
  ℕ, zero, suc, ◌+◌, ◌-◌, Bool, true, false, not, ◌&&◌, Option, none, some, List, [], ◌∷◌, ◌++◌,
  ltb, leb, if◌then◌else◌, Except, ok, throw,
}

pub record RetryOptions (E : Type 0) : Type 0 where
  pub max_attempts : ℕ
  pub is_retryable : Option (E → Bool)

-- `opts.isRetryable && !opts.isRetryable(e)`
abbrev pub gives_up : {E : Type 0} → Option (E → Bool) → E → Bool
gives_up none e = false
gives_up (some p) e = not (p e)

-- What `retry` did: its value, or what it threw, which is `undefined` if no attempt was made; how many
-- attempts it made; and after which attempts it waited.
pub record Outcome (E A : Type 0) : Type 0 where
  pub result : Except (Option E) A
  pub attempts : ℕ
  pub waits : List ℕ

module _ {E A : Type 0} (fn : ℕ → Except E A) (opts : RetryOptions E) where
  -- The loop from `attempt` on, with `left` rounds left, and the last error.
  unfoldable pub loop : ℕ → ℕ → Option E → List ℕ → Outcome E A
  loop zero attempt last waits = record {
    result = throw last;
    attempts = attempt - 1;
    waits = waits;
  }
  loop (suc left) attempt last waits = elim (fn attempt) [
    | ok a ↦ record { result = ok a; attempts = attempt; waits = waits }
    | throw e ↦
        let more =
          loop left (attempt + 1) (some e)
            (if ltb attempt opts.max_attempts then waits ++ attempt ∷ [] else waits) in
        if gives_up opts.is_retryable e
        then record { result = throw (some e); attempts = attempt; waits = waits }
        else more
  ]

  unfoldable pub retry : Outcome E A
  unfolding loop
  retry = loop opts.max_attempts 1 none []
