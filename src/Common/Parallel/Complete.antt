-- ===== src/Common/Parallel/Complete.antt =====
-- That no task is run twice, that no more tasks run at a time than is allowed, and that all are run.
use enterprise_system.Prelude.{
  ℕ, ◌+◌, ◌≤◌, ◌<◌, ◌≡◌, true, false, Option, none, some, List, [], ◌∷◌, ltb, leb, ◌==◌,
  if◌then◌else◌, length, min, arith, refl, ◌∙◌, Bool-cases, Except-cases, inl, inr, Except, ok,
  throw,
}
use enterprise_system.Common.Parallel.{
  ParallelOptions, Pool, count, remove, spawned, take_next, finish, Reached, start, finishes,
}
use enterprise_system.Common.Parallel.Counts.{
  count-remove, length-remove, count-indices, length-indices,
}

-- The value of a task that returned.
abbrev pub value_of : {E A : Type 0} → Except E A → Option A
value_of (ok a) = some a
value_of (throw e) = none

module _ {E A : Type 0} (task : ℕ → Except E A) (total : ℕ) (opts : ParallelOptions) where
  -- Each index below the next one stands once among the running and the finished, and no other does; the
  -- results are those of the finished tasks; no more tasks run than there are workers, and without
  -- `failFast` every worker is busy as long as there is a next task.
  pub record IsSound (p : Pool E A) : Type 0 where
    pub counted :
        (i : ℕ) → count i p.running + count i p.finished ≡ (if ltb i p.current then 1 else 0)
    pub bounded : p.current ≤ total
    pub limited : length p.running ≤ opts.concurrency
    pub busy :
        opts.fail_fast ≡ false → p.current < total → length p.running ≡ min opts.concurrency total
    pub valued :
        (i : ℕ) → p.results i ≡ (if leb 1 (count i p.finished) then value_of (task i) else none)

  spawned-IsSound : IsSound (spawned task total opts)
  spawned-IsSound = record {
    counted = λ i. ground (arith, count-indices i 0 (min opts.concurrency total));
    bounded = omega arith;
    limited = omega (arith, length-indices 0 (min opts.concurrency total));
    busy = λ f h. length-indices 0 (min opts.concurrency total);
    valued = λ i. refl;
  }

  -- The same between the end of a task and the next one that its worker takes.
  record Freed (p : Pool E A) : Type 0 where
    counted : (i : ℕ) → count i p.running + count i p.finished ≡ (if ltb i p.current then 1 else 0)
    bounded : p.current ≤ total
    limited : length p.running + 1 ≤ opts.concurrency
    busy :
        opts.fail_fast ≡ false
        → p.current < total
        → length p.running + 1 ≡ min opts.concurrency total
    valued :
        (i : ℕ) → p.results i ≡ (if leb 1 (count i p.finished) then value_of (task i) else none)

  take_next-IsSound : (p : Pool E A) → Freed p → IsSound (take_next task total opts p)
  unfolding take_next
  take_next-IsSound p s = elim (Bool-cases (ltb p.current total)) [
    | inl e ↦ rw e (record {
      counted = λ i. ground (arith, s.counted i);
      bounded = ground arith;
      limited = omega (arith, s.limited);
      busy = λ f h. let b = s.busy f (ground arith) in omega (arith, b);
      valued = s.valued;
    })
    | inr e ↦ rw e (record {
      counted = s.counted;
      bounded = s.bounded;
      limited = omega (arith, s.limited);
      busy = λ f h. absurd (ground arith);
      valued = s.valued;
    })
  ]

  stopped-IsSound : (p : Pool E A) → opts.fail_fast ≡ true → Freed p → IsSound p
  stopped-IsSound p f s = record {
    counted = s.counted;
    bounded = s.bounded;
    limited = omega (arith, s.limited);
    busy = λ g h. absurd (ground arith);
    valued = s.valued;
  }

  module _ (i : ℕ) (p : Pool E A) (s : IsSound p) (h : 1 ≤ count i p.running) where
    counted_once :
        (j : ℕ)
        → count j (remove i p.running) + count j (i ∷ p.finished)
          ≡ (if ltb j p.current then 1 else 0)
    counted_once j = ground (arith, s.counted j, count-remove i j p.running h)

    returned-Freed :
        (a : A)
        → task i ≡ ok a
        → Freed (record p {
          running = remove i p.running;
          finished = i ∷ p.finished;
          results = λ j. if j == i then some a else p.results j;
        })
    returned-Freed a e = record {
      counted = counted_once;
      bounded = s.bounded;
      limited = omega (arith, s.limited, length-remove i p.running h);
      busy = λ f g. omega (arith, s.busy f g, length-remove i p.running h);
      valued = λ j. elim (Bool-cases (j == i)) [
        | inl q ↦
            let same : i ≡ j = ground arith in
            let own : task j ≡ ok a = rw same at e in ground arith
        | inr q ↦ ground (arith, s.valued j)
      ];
    }

    thrown-Freed :
        (x : E) (errors : List E) (rejected : Option E)
        → task i ≡ throw x
        → Freed (record p {
          running = remove i p.running;
          finished = i ∷ p.finished;
          errors = errors;
          rejected = rejected;
        })
    thrown-Freed x errors rejected e = record {
      counted = counted_once;
      bounded = s.bounded;
      limited = omega (arith, s.limited, length-remove i p.running h);
      busy = λ f g. omega (arith, s.busy f g, length-remove i p.running h);
      valued = λ j. elim (Bool-cases (j == i)) [
        | inl q ↦
            let same : i ≡ j = ground arith in
            let own : task j ≡ throw x = rw same at e in ground (arith, s.valued j, s.counted j)
        | inr q ↦ ground (arith, s.valued j)
      ];
    }

    finish-IsSound : IsSound (finish task total opts i p)
    unfolding finish
    finish-IsSound = elim (Except-cases (task i)) [
      | inl (a, e) ↦ rw (e, finish) (take_next-IsSound _ (returned-Freed a e))
      | inr (x, e) ↦ elim (Bool-cases opts.fail_fast) [
        | inl f ↦ rw (e, finish) (simp f (stopped-IsSound _ f (thrown-Freed x _ _ e)))
        | inr f ↦ rw (e, finish) (simp f (take_next-IsSound _ (thrown-Freed x _ _ e)))
      ]
    ]

  pub Reached-IsSound : (p : Pool E A) → Reached task total opts p → IsSound p
  Reached-IsSound _ start = spawned-IsSound
  Reached-IsSound _ (finishes {p} i r h) = finish-IsSound i p (Reached-IsSound p r) h

  -- Whenever a run stands, no more tasks are awaited than the options allow, and no task has been taken
  -- twice.
  pub Reached-limited :
      (p : Pool E A)
      → Reached task total opts p
      → (length p.running ≤ opts.concurrency)
        × ((i : ℕ) → count i p.running + count i p.finished ≤ 1)
  Reached-limited p r = let s = Reached-IsSound p r in (s.limited, λ i. ground (arith, s.counted i))

  -- Without `failFast` and with at least one worker, a run in which no task is awaited any more has
  -- finished every task once, and the results are the values of the tasks that returned.
  pub Reached-complete :
      (p : Pool E A)
      → opts.fail_fast ≡ false
      → 1 ≤ opts.concurrency
      → Reached task total opts p
      → p.running ≡ []
      → (i : ℕ) → i < total
      → (count i p.finished ≡ 1) × (p.results i ≡ value_of (task i))
  Reached-complete p f c r n i h =
      let s = Reached-IsSound p r in
      let idle : length p.running ≡ 0 = rw n refl in
      let all : p.current ≡ total = elim (Bool-cases (ltb p.current total)) [
        | inl e ↦ let b = s.busy f (ground arith) in absurd (omega (arith, idle, b))
        | inr e ↦ ground (arith, s.bounded)
      ] in
      let none_runs : count i p.running ≡ 0 = rw n refl in
      let once : count i p.finished ≡ 1 = ground (arith, s.counted i) in
      (once, s.valued i ∙ rw once refl)
