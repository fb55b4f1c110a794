-- ===== src/Common/Parallel/Ends.antt =====
-- That every run of the worker pool comes to rest.
use enterprise_system.Prelude.{
  ℕ, ◌+◌, ◌≤◌, ◌≡◌, ◌⊎◌, inl, inr, List, [], ◌∷◌, ltb, length, min, arith, refl, Bool-cases,
  Except-cases, Except, ==_iff,
}
use enterprise_system.Common.Parallel.{
  ParallelOptions, Pool, count, spawned, take_next, finish, Reached, start, finishes,
}
use enterprise_system.Common.Parallel.Counts.{length-remove, length-indices}
use enterprise_system.Common.Parallel.Complete.{Reached-IsSound}

module _ {E A : Type 0} (task : ℕ → Except E A) (total : ℕ) (opts : ParallelOptions) where
  -- The pools that a run comes to in a number of steps.
  pub data Ran : ℕ → Pool E A → Type 0 where
    begun : Ran 0 (spawned task total opts)
    stepped :
        {n : ℕ} {p : Pool E A} (i : ℕ)
        → Ran n p
        → 1 ≤ count i p.running
        → Ran (n + 1) (finish task total opts i p)

  Ran-Reached : (n : ℕ) (p : Pool E A) → Ran n p → Reached task total opts p
  Ran-Reached _ _ begun = start
  Ran-Reached _ _ (stepped {n} {p} i r h) = finishes i (Ran-Reached n p r) h

  -- Every step finishes one task, and every task that was taken is awaited or finished.
  abbrev Counted : ℕ → Pool E A → Type 0
  Counted n p = (length p.finished ≡ n) × (length p.running + length p.finished ≡ p.current)

  take_next-Counted : (n : ℕ) (p : Pool E A) → Counted n p → Counted n (take_next task total opts p)
  unfolding take_next
  take_next-Counted n p (f, s) = elim (Bool-cases (ltb p.current total)) [
    | inl e ↦ rw e (f, omega arith)
    | inr e ↦ rw e (f, s)
  ]

  finish-Counted :
      (n i : ℕ) (p : Pool E A)
      → 1 ≤ count i p.running
      → Counted n p
      → Counted (n + 1) (finish task total opts i p)
  unfolding finish
  finish-Counted n i p h (f, s) =
      let l = length-remove i p.running h in
      elim (Except-cases (task i)) [
        | inl (a, e) ↦ rw (e, finish) (take_next-Counted (n + 1) _ (omega arith, omega arith))
        | inr (x, e) ↦ elim (Bool-cases opts.fail_fast) [
          | inl g ↦ rw (e, finish) (simp g (omega arith, omega arith))
          | inr g ↦ rw (e, finish) (simp g (take_next-Counted (n + 1) _ (omega arith, omega arith)))
        ]
      ]

  Ran-Counted : (n : ℕ) (p : Pool E A) → Ran n p → Counted n p
  Ran-Counted _ _ begun = (refl, omega (arith, length-indices 0 (min opts.concurrency total)))
  Ran-Counted _ _ (stepped {n} {p} i r h) = finish-Counted n i p h (Ran-Counted n p r)

  awaited : (js : List ℕ) → (js ≡ []) ⊎ ((i : ℕ) × (1 ≤ count i js))
  awaited [] = inl refl
  awaited (j ∷ js) = inr (j, ground (arith, ==_iff j j))

  -- A run has at most as many steps as there are tasks, and until no task is awaited a further step is possible.
  pub Ran-ends :
      (n : ℕ) (p : Pool E A)
      → Ran n p
      → (n ≤ total)
        × ((p.running ≡ [])
            ⊎ ((i : ℕ) × (1 ≤ count i p.running) × Ran (n + 1) (finish task total opts i p)))
  Ran-ends n p r =
      let (f, s) = Ran-Counted n p r in
      let b = (Reached-IsSound task total opts p (Ran-Reached n p r)).bounded in
      (
        omega arith,
        elim (awaited p.running) [ inl e ↦ inl e | inr (i, h) ↦ inr (i, h, stepped i r h) ],
      )
