-- ===== src/Security/Throttler/Window.antt =====
-- How many requests of one key a window lets through.
use enterprise_system.Prelude.{
  ℕ, ◌+◌, ◌-◌, ◌*◌, ◌≤◌, ◌≡◌, min, true, some, List, [], ◌∷◌, refl, ◌∙◌, arith, ltb, length,
  if◌then◌else◌, Text, text_eq_refl, Except, ok, throw, All, Option-cases, inl, inr,
}
use enterprise_system.Prelude.Dict.{Dict, lookup, insert, lookup-insert}
use enterprise_system.Security.Throttler.{RateLimitEntry, Limits, Refusal, check, is_new}

abbrev pub accepted : Except Refusal (Unit {0}) → ℕ
accepted (ok u) = 1
accepted (throw e) = 0

-- Requests of one key, one after the other, with the two times that each reads: how many are let
-- through.
unfoldable pub passes : List (ℕ × ℕ) → Limits → Text → Dict RateLimitEntry → ℕ
passes [] l key store = 0
passes ((now, later) ∷ ts) l key store =
    let r = check now later l key store in accepted r.decision + passes ts l key r.store

lookup-insert_self :
    (key : Text) (e : RateLimitEntry) (store : Dict RateLimitEntry)
    → lookup key (insert key e store) ≡ some e
lookup-insert_self key e store = lookup-insert key key e store ∙ rw (text_eq_refl key)

module _ (l : Limits) (key : Text) where
  -- A request within the window of its entry.
  check_within :
      (now later : ℕ) (e : RateLimitEntry) (store : Dict RateLimitEntry)
      → lookup key store ≡ some e
      → now ≤ e.reset_time
      → (accepted (check now later l key store).decision ≡ (if ltb e.count l.limit then 1 else 0))
        × (lookup key (check now later l key store).store
            ≡ some (record e { count = if ltb e.count l.limit then e.count + 1 else e.count }))
  unfolding check
  check_within now later e store f h = rw f (
    ground (arith, lookup-insert_self key (record e { count = e.count + 1 }) store),
    ground (arith, f, lookup-insert_self key (record e { count = e.count + 1 }) store),
  )

  -- A request that finds no entry, or one whose window is over.
  check_new :
      (now later : ℕ) (store : Dict RateLimitEntry)
      → is_new now (lookup key store) ≡ true
      → (accepted (check now later l key store).decision ≡ 1)
        × (lookup key (check now later l key store).store
            ≡ some (record { count = 1; reset_time = now + l.window_seconds * 1000 }))
  unfolding check
  check_new now later store n = elim (Option-cases (lookup key store)) [
    | inl f ↦ rw f (refl, lookup-insert_self key _ store)
    | inr (e, f) ↦
        let over : ltb e.reset_time now ≡ true = rw f at n in
        rw f (rw over (refl, lookup-insert_self key _ store))
  ]

  passes_within :
      (ts : List (ℕ × ℕ)) (e : RateLimitEntry) (store : Dict RateLimitEntry)
      → lookup key store ≡ some e
      → All (λ (t : ℕ × ℕ). t.0 ≤ e.reset_time) ts
      → passes ts l key store ≡ min (length ts) (l.limit - e.count)
  unfolding passes
  passes_within [] e store f h = omega arith
  passes_within ((now, later) ∷ ts) e store f (h, hs) =
      let (a, g) = check_within now later e store f h in
      let ih = passes_within ts _ _ g hs in ground arith

  -- From a request that opens a window, and as long as the window lasts, as many requests of the key
  -- are let through as the limit says, but the first always; all later ones are refused.
  pub passes_new :
      (now later : ℕ) (ts : List (ℕ × ℕ)) (store : Dict RateLimitEntry)
      → is_new now (lookup key store) ≡ true
      → All (λ (t : ℕ × ℕ). t.0 ≤ now + l.window_seconds * 1000) ts
      → passes ((now, later) ∷ ts) l key store ≡ 1 + min (length ts) (l.limit - 1)
  unfolding passes
  passes_new now later ts store n h =
      let e : RateLimitEntry = record { count = 1; reset_time = now + l.window_seconds * 1000 } in
      let (a, g) = check_new now later store n in
      let rest = passes_within ts e _ g h in ground arith
