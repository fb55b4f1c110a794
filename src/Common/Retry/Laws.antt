-- ===== src/Common/Retry/Laws.antt =====
-- How many attempts `retry` makes, what it returns or throws, and after which attempts it waits.
use mathlib.Core.List.{append-nil, append_assoc}
use native.Mathlib.Nat.{add-zero}
use enterprise_system.Prelude.{
  ℕ, zero, suc, ◌+◌, ◌≤◌, ◌<◌, ◌≡◌, true, false, Option, none, some, List, [], ◌∷◌, ◌++◌, sym, ◌∙◌,
  ap, lt→ltb, arith, Except, ok, throw,
}
use enterprise_system.Common.Retry.{RetryOptions, gives_up, loop, retry}

-- The attempts from `a` on, `k` of them.
abbrev pub range : ℕ → ℕ → List ℕ
range a zero = []
range a (suc k) = a ∷ range (a + 1) k

module _ {E A : Type 0} (fn : ℕ → Except E A) (opts : RetryOptions E) where
  -- The attempts from `a` on, `k` of them, throw errors that may be retried.
  abbrev pub Failing : ℕ → ℕ → Type 0
  Failing a zero = Unit
  Failing a (suc k) =
      ((e : E) × (fn a ≡ throw e) × (gives_up opts.is_retryable e ≡ false)) × Failing (a + 1) k

  -- What an attempt gives that ends the loop: a value, or an error that may not be retried.
  abbrev pub Ends : Except E A → Type 0
  Ends (ok a) = Unit
  Ends (throw e) = gives_up opts.is_retryable e ≡ true

  abbrev pub settled : Except E A → Except (Option E) A
  settled (ok a) = ok a
  settled (throw e) = throw (some e)

  loop-next :
      (left a : ℕ) (last : Option E) (waits : List ℕ) (x : E)
      → fn a ≡ throw x
      → gives_up opts.is_retryable x ≡ false
      → a < opts.max_attempts
      → loop fn opts (suc left) a last waits ≡ loop fn opts left (a + 1) (some x) (waits ++ a ∷ [])
  unfolding loop
  loop-next left a last waits x p q h = rw (p, loop) (rw (q, lt→ltb a opts.max_attempts h))

  loop-Ends :
      (k left a : ℕ) (last : Option E) (waits : List ℕ) (r : Except E A)
      → k < left
      → a + left ≤ opts.max_attempts + 1
      → Failing a k
      → fn (a + k) ≡ r
      → Ends r
      → loop fn opts left a last waits
        ≡ record { result = settled r; attempts = a + k; waits = waits ++ range a k }
  unfolding loop
  loop-Ends k zero a last waits r h b f e n = absurd (omega arith)
  loop-Ends zero (suc left) a last waits (ok v) h b f e n =
      let here : fn a ≡ ok v = ap fn (sym (add-zero a)) ∙ e in
      rw (here, loop) (rw append-nil (rw add-zero))
  loop-Ends zero (suc left) a last waits (throw v) h b f e n =
      let here : fn a ≡ throw v = ap fn (sym (add-zero a)) ∙ e in
      rw (here, loop) (rw n (rw append-nil (rw add-zero)))
  loop-Ends (suc k) (suc left) a last waits r h b ((x, p, q), f) e n =
      let next : a + suc k ≡ a + 1 + k = omega arith in
      let rest =
        loop-Ends k left (a + 1) (some x) (waits ++ a ∷ []) r (omega arith) (omega arith) f
          (ap fn (sym next) ∙ e) n in
      loop-next left a last waits x p q (omega arith)
      ∙ rest
      ∙ cc (next, append_assoc waits (a ∷ []) (range (a + 1) k))

  loop-fails :
      (k a : ℕ) (last : Option E) (waits : List ℕ) (x : E)
      → a + k ≡ opts.max_attempts
      → Failing a (suc k)
      → fn (a + k) ≡ throw x
      → loop fn opts (suc k) a last waits
        ≡ record { result = throw (some x); attempts = a + k; waits = waits ++ range a k }
  unfolding loop
  loop-fails zero a last waits x b ((y, p, q), f) e =
      let here : fn a ≡ throw x = ap fn (sym (add-zero a)) ∙ e in
      let same : y ≡ x = cc in rw (p, loop) (rw q (rw append-nil (rw same (ground arith))))
  loop-fails (suc k) a last waits x b ((y, p, q), f) e =
      let next : a + suc k ≡ a + 1 + k = omega arith in
      let rest =
        loop-fails k (a + 1) (some y) (waits ++ a ∷ []) x (omega arith) f (ap fn (sym next) ∙ e) in
      loop-next (suc k) a last waits y p q (omega arith)
      ∙ rest
      ∙ cc (next, append_assoc waits (a ∷ []) (range (a + 1) k))

  -- If the attempts before one of them fail with errors that may be retried, and that one gives a
  -- value or an error that may not, then `retry` gives the same, has made no attempt after it, and has
  -- waited after each attempt before it.
  pub retry-Ends :
      (k : ℕ) (r : Except E A)
      → k < opts.max_attempts
      → Failing 1 k
      → fn (1 + k) ≡ r
      → Ends r
      → retry fn opts ≡ record { result = settled r; attempts = 1 + k; waits = range 1 k }
  unfolding retry
  retry-Ends k r h f e n = loop-Ends k opts.max_attempts 1 none [] r h (omega arith) f e n

  -- If every attempt fails with an error that may be retried, then all of them are made, the last error
  -- is thrown, and there is no wait after the last attempt.
  pub retry-fails :
      (k : ℕ) (x : E)
      → opts.max_attempts ≡ suc k
      → Failing 1 (suc k)
      → fn (1 + k) ≡ throw x
      → retry fn opts
        ≡ record { result = throw (some x); attempts = opts.max_attempts; waits = range 1 k }
  unfolding retry
  retry-fails k x m f e =
      ap (λ n. loop fn opts n 1 none []) m
      ∙ loop-fails k 1 none [] x (omega arith) f e
      ∙ cc (let count : 1 + k ≡ opts.max_attempts = omega arith in count)

  -- With no attempt allowed, nothing is called, and what is thrown is undefined.
  pub retry-none :
      opts.max_attempts ≡ 0
      → retry fn opts ≡ record { result = throw none; attempts = 0; waits = [] }
  unfolding retry loop
  retry-none m = ap (λ n. loop fn opts n 1 none []) m
