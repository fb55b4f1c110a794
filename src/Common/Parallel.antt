-- ===== src/Common/Parallel.antt =====
-- `parallel` (src/common/utils/async.util.ts): workers that take the tasks in order. A worker that is
-- resumed runs up to its next `await` without another between, so a run is a sequence of tasks that
-- finish, in any order.
pub mod Counts
pub mod Complete
pub mod Ends
pub mod Settled
use enterprise_system.Prelude.{
  ℕ, zero, suc, ◌+◌, ◌≤◌, ◌≡◌, Bool, true, false, Option, none, some, List, [], ◌∷◌, ◌++◌, ltb,
  ◌==◌, if◌then◌else◌, min, Except, ok, throw,
}

pub record ParallelOptions : Type 0 where
  pub concurrency : ℕ
  pub fail_fast : Bool

-- `current` is the index of the next task; `running` holds the indices that workers await, `finished`
-- those that they awaited; `rejected` is the first error under `failFast`.
pub record Pool (E A : Type 0) : Type 0 where
  pub current : ℕ
  pub running : List ℕ
  pub finished : List ℕ
  pub results : ℕ → Option A
  pub errors : List E
  pub rejected : Option E

-- The indices from `a` on, `n` of them.
abbrev pub indices : ℕ → ℕ → List ℕ
indices a zero = []
indices a (suc n) = a ∷ indices (a + 1) n

-- How often an index stands in a list, and the list without its first occurrence.
abbrev pub count : ℕ → List ℕ → ℕ
count i [] = 0
count i (j ∷ js) = if j == i then count i js + 1 else count i js

abbrev pub remove : ℕ → List ℕ → List ℕ
remove i [] = []
remove i (j ∷ js) = let rest = remove i js in if j == i then js else j ∷ rest

-- What `parallel` throws: the first error, or an `AggregateError` of all.
pub data ParallelError (E : Type 0) : Type 0 where
  first_error : E → ParallelError E
  aggregate_error : List E → ParallelError E

module _ {E A : Type 0} where
  abbrev at_once : (ℕ → Option A) → Option E → Except (ParallelError E) (ℕ → Option A)
  at_once results none = ok results
  at_once results (some e) = throw (first_error e)

  abbrev at_end : (ℕ → Option A) → List E → Except (ParallelError E) (ℕ → Option A)
  at_end results [] = ok results
  at_end results (e ∷ errors) = throw (aggregate_error (e ∷ errors))

  -- How `parallel` ends, once all workers have ended or, under `failFast`, one has thrown.
  unfoldable pub settle_pool : ParallelOptions → Pool E A → Except (ParallelError E) (ℕ → Option A)
  settle_pool opts p =
      if opts.fail_fast then at_once p.results p.rejected else at_end p.results p.errors

module _ {E A : Type 0} (task : ℕ → Except E A) (total : ℕ) (opts : ParallelOptions) where
  -- The workers have been spawned, and each has taken a task.
  abbrev pub spawned : Pool E A
  spawned = record {
    current = min opts.concurrency total;
    running = indices 0 (min opts.concurrency total);
    finished = [];
    results = λ j. none;
    errors = [];
    rejected = none;
  }

  -- The loop of a worker goes on: it takes the next task if there is one.
  unfoldable pub take_next : Pool E A → Pool E A
  take_next p =
      if ltb p.current total
      then record p { current = p.current + 1; running = p.current ∷ p.running }
      else p

  abbrev or_first : Option E → E → Option E
  or_first none e = some e
  or_first (some d) e = some d

  -- The task of an index that is awaited finishes.
  unfoldable pub finish : ℕ → Pool E A → Pool E A
  unfolding take_next
  finish i p =
      let done = record p { running = remove i p.running; finished = i ∷ p.finished } in
      elim (task i) [
        | ok a ↦ take_next (record done { results = λ j. if j == i then some a else p.results j })
        | throw e ↦
            if opts.fail_fast
            then record done { rejected = or_first p.rejected e }
            else take_next (record done { errors = p.errors ++ e ∷ [] })
      ]

  -- The pools that a run comes to.
  pub data Reached : Pool E A → Type 0 where
    start : Reached spawned
    finishes : {p : Pool E A} (i : ℕ) → Reached p → 1 ≤ count i p.running → Reached (finish i p)
