-- ===== src/Security/Throttler/Keys.antt =====
-- That keys do not touch one another, and that the periodic cleanup is not seen.
use enterprise_system.Prelude.{
  ℕ, ◌+◌, ◌*◌, ◌≤◌, ◌≡◌, ◌≢◌, not, Option, none, some, refl, ◌∙◌, arith, ltb, leb, Text,
  text_eq_iff, Bool-cases, inl, inr,
}
use enterprise_system.Prelude.Dict.{
  Dict, lookup, insert, lookup-insert, Unique, insert-Unique, kept, lookup-keep,
}
use enterprise_system.Security.Throttler.{RateLimitEntry, Limits, check, decide, cleanup}

insert-other :
    (key other : Text) (e : RateLimitEntry) (store : Dict RateLimitEntry)
    → key ≢ other
    → lookup other (insert key e store) ≡ lookup other store
insert-other key other e store n =
    lookup-insert key other e store ∙ ground (arith, text_eq_iff key other)

decide-other :
    (now later : ℕ) (l : Limits) (key other : Text) (o : Option RateLimitEntry)
    (store : Dict RateLimitEntry)
    → key ≢ other
    → lookup other (decide now later l key o store).store ≡ lookup other store
unfolding decide
decide-other now later l key other none store n = insert-other key other _ store n
decide-other now later l key other (some e) store n =
    let opened : RateLimitEntry = record {
      count = 1;
      reset_time = now + l.window_seconds * 1000;
    } in
    let counted : RateLimitEntry = record e { count = e.count + 1 } in
    ground (arith, insert-other key other opened store n, insert-other key other counted store n)

-- A request of one key leaves the entry of every other key as it is.
pub check-other :
    (now later : ℕ) (l : Limits) (key other : Text) (store : Dict RateLimitEntry)
    → key ≢ other
    → lookup other (check now later l key store).store ≡ lookup other store
unfolding check
check-other now later l key other store n =
    decide-other now later l key other (lookup key store) store n

decide-kept :
    (cleaned now later : ℕ) (l : Limits) (key : Text) (o : Option RateLimitEntry)
    (store old : Dict RateLimitEntry)
    → cleaned ≤ now
    → let p = λ (e : RateLimitEntry). not (ltb e.reset_time cleaned) in
      ((decide now later l key (kept p o) store).decision ≡ (decide now later l key o old).decision)
      × ((decide now later l key (kept p o) store).headers ≡ (decide now later l key o old).headers)
unfolding decide
decide-kept cleaned now later l key none store old h = (refl, refl)
decide-kept cleaned now later l key (some e) store old h = (ground arith, ground arith)

-- In a store where no key stands twice, a cleanup at a time not after the request changes neither the
-- decision nor the headers.
pub check-cleanup :
    (cleaned now later : ℕ) (l : Limits) (key : Text) (store : Dict RateLimitEntry)
    → Unique store
    → cleaned ≤ now
    → ((check now later l key (cleanup cleaned store)).decision
        ≡ (check now later l key store).decision)
      × ((check now later l key (cleanup cleaned store)).headers
          ≡ (check now later l key store).headers)
unfolding check cleanup
check-cleanup cleaned now later l key store u h =
    rw (lookup-keep _ key store u)
      (decide-kept cleaned now later l key (lookup key store) _ store h)

-- The keys of the store stay different.
pub check-Unique :
    (now later : ℕ) (l : Limits) (key : Text) (store : Dict RateLimitEntry)
    → Unique store
    → Unique (check now later l key store).store
unfolding check
check-Unique now later l key store u = decide-Unique (lookup key store)
  where
    decide-Unique : (o : Option RateLimitEntry) → Unique (decide now later l key o store).store
    decide-Unique none = insert-Unique key _ store u
    decide-Unique (some e) = elim (Bool-cases (ltb e.reset_time now)) [
      | inl a ↦ rw a (insert-Unique key _ store u)
      | inr a ↦ rw a (elim (Bool-cases (leb l.limit e.count)) [
        | inl b ↦ rw b u
        | inr b ↦ rw b (insert-Unique key _ store u)
      ])
    ]
