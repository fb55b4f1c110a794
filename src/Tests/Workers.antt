-- ===== src/Tests/Workers.antt =====
-- The worker pool on three tasks and two workers.
use enterprise_system.Prelude.{
  ℕ, ◌+◌, ◌≤◌, ◌≡◌, ◌⊎◌, ◌==◌, if◌then◌else◌, false, none, some, [], ◌∷◌, Except, ok, throw, arith,
  refl,
}
use enterprise_system.Common.Parallel.{
  ParallelOptions, Pool, settle_pool, aggregate_error, count, spawned, finish, Reached, start,
  finishes,
}
use enterprise_system.Common.Parallel.Settled.{settle_pool-ok}
use enterprise_system.Common.Parallel.Ends.{Ran, begun, stepped, Ran-ends}
use enterprise_system.Common.Parallel.Complete.{Reached-complete}

-- The second task throws.
abbrev task : ℕ → Except ℕ ℕ
task i = if i == 1 then throw 7 else ok (i + 10)

abbrev options : ParallelOptions
options = record { concurrency = 2; fail_fast = false }

abbrev midway : Pool ℕ ℕ
midway = finish task 3 options 1 (spawned task 3 options)

abbrev over : Pool ℕ ℕ
over = finish task 3 options 2 (finish task 3 options 0 midway)

reached_midway : Reached task 3 options midway
reached_midway = finishes 1 start (omega arith)

reached_over : Reached task 3 options over
unfolding finish
reached_over = finishes 2 (finishes 0 reached_midway (omega arith)) (omega arith)

idle : over.running ≡ []
unfolding finish
idle = refl

Reached-complete_example : (count 1 over.finished ≡ 1) × (over.results 1 ≡ none)
Reached-complete_example =
    Reached-complete task 3 options over refl (omega arith) reached_over idle 1 (omega arith)

Ran-ends_example :
    (1 ≤ 3)
    × ((midway.running ≡ [])
        ⊎ ((i : ℕ) × (1 ≤ count i midway.running)
            × Ran task 3 options 2 (finish task 3 options i midway)))
Ran-ends_example = Ran-ends task 3 options 1 midway (stepped 1 begun (omega arith))

-- Three tasks that all return.
abbrev good : ℕ → Except ℕ ℕ
good i = ok (i + 10)

abbrev all_good : Pool ℕ ℕ
all_good =
    finish good 3 options 2
      (finish good 3 options 0 (finish good 3 options 1 (spawned good 3 options)))

reached_good : Reached good 3 options all_good
unfolding finish
reached_good = finishes 2 (finishes 0 (finishes 1 start (omega arith)) (omega arith)) (omega arith)

idle_good : all_good.running ≡ []
unfolding finish
idle_good = refl

returned : settle_pool options all_good ≡ ok all_good.results
unfolding finish settle_pool
returned = refl

settle_pool-ok_example : (a : ℕ) × (good 1 ≡ ok a) × (all_good.results 1 ≡ some a)
settle_pool-ok_example =
    settle_pool-ok good 3 options all_good all_good.results refl (omega arith) reached_good
      idle_good returned 1 (omega arith)

failed_one : settle_pool options over ≡ throw (aggregate_error (7 ∷ []))
unfolding finish settle_pool
failed_one = refl
