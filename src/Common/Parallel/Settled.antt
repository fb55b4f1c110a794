-- ===== src/Common/Parallel/Settled.antt =====
-- What the end of `parallel` says of its tasks.
use enterprise_system.Prelude.{
  ℕ, ◌≤◌, ◌<◌, ◌≡◌, ◌≢◌, false, Option, some, List, [], ◌∷◌, ◌++◌, ltb, ◌==◌, arith, refl,
  Bool-cases, Except-cases, inl, inr, Except, ok, throw,
}
use enterprise_system.Common.Parallel.{
  ParallelOptions, Pool, count, take_next, finish, Reached, start, finishes, settle_pool, at_end,
}
use enterprise_system.Common.Parallel.Complete.{Reached-complete}

append-solid : {E : Type 0} (es : List E) (e : E) → es ++ e ∷ [] ≢ []
append-solid [] e = cc
append-solid (x ∷ es) e = cc

module _ {E A : Type 0} (task : ℕ → Except E A) (total : ℕ) (opts : ParallelOptions) where
  -- Every task that finished with an error has left one.
  abbrev IsReported : Pool E A → Type 0
  IsReported p = (i : ℕ) (e : E) → 1 ≤ count i p.finished → task i ≡ throw e → p.errors ≢ []

  take_next-IsReported : (p : Pool E A) → IsReported p → IsReported (take_next task total opts p)
  unfolding take_next
  take_next-IsReported p h = elim (Bool-cases (ltb p.current total)) [
    | inl e ↦ rw e h
    | inr e ↦ rw e h
  ]

  finish-IsReported :
      (i : ℕ) (p : Pool E A)
      → opts.fail_fast ≡ false
      → IsReported p
      → IsReported (finish task total opts i p)
  unfolding finish
  finish-IsReported i p f h = elim (Except-cases (task i)) [
    | inl (a, e) ↦
        rw (e, finish)
          (take_next-IsReported _ (λ j x c t. elim (Bool-cases (i == j)) [
            | inl q ↦
                (let same : i ≡ j = ground arith in
                  let own : task j ≡ ok a = rw same at e in absurd (ground arith))
            | inr q ↦ (let c' : 1 ≤ count j p.finished = ground arith in h j x c' t)
          ]))
    | inr (y, e) ↦
        rw (e, finish) (simp f (take_next-IsReported _ (λ j x c t. append-solid p.errors y)))
  ]

  Reached-IsReported :
      (p : Pool E A) → opts.fail_fast ≡ false → Reached task total opts p → IsReported p
  Reached-IsReported _ f start = λ i e c t. absurd (omega arith)
  Reached-IsReported _ f (finishes {p} i r h) = finish-IsReported i p f (Reached-IsReported p f r)

  ended :
      (results : ℕ → Option A) (errors : List E) (r : ℕ → Option A)
      → at_end results errors ≡ ok r
      → (errors ≡ []) × (results ≡ r)
  ended results [] r h = (refl, cc)
  ended results (e ∷ errors) r h = absurd (ground arith)

  -- If without `failFast`, with at least one worker, parallel returns once no task is awaited any more, then every
  -- task returned, and the results are the values of the tasks at their places.
  pub settle_pool-ok :
      (p : Pool E A) (r : ℕ → Option A)
      → opts.fail_fast ≡ false
      → 1 ≤ opts.concurrency
      → Reached task total opts p
      → p.running ≡ []
      → settle_pool opts p ≡ ok r
      → (i : ℕ) → i < total
      → (a : A) × (task i ≡ ok a) × (r i ≡ some a)
  unfolding settle_pool
  settle_pool-ok p r f c reached idle h i below =
      let (none_left, same) = ended p.results p.errors r (rw f at h) in
      let (once, value) = Reached-complete task total opts p f c reached idle i below in
      elim (Except-cases (task i)) [
        | inl (a, e) ↦ (a, e, (let v : p.results i ≡ some a = rw e at value in rw same at v))
        | inr (x, e) ↦ absurd (Reached-IsReported p f reached i x (omega (arith, once)) e none_left)
      ]
