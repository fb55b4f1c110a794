-- ===== src/Infrastructure/Cache/Counted.antt =====
-- What the statistics of the cache count.
use enterprise_system.Prelude.{◌+◌, ◌≤◌, ◌≡◌, Option, none, some, Text, Except, ok, throw, arith}
use enterprise_system.Infrastructure.Cache.{
  Redis, Json, Failure, World, CacheOptions, CacheStats, parsed, read, get, build_key,
}

-- What a get adds to the statistics: one that returns is one hit or one miss, and one that throws is an
-- error, which was counted as a hit too if the value was found but could not be parsed. The other
-- counters stay.
abbrev pub Counted : {E V : Type 0} → Except (Failure E) V → CacheStats → CacheStats → Type 0
Counted (ok v) s t =
    (t.hits + t.misses ≡ s.hits + s.misses + 1)
    × (t.errors ≡ s.errors)
    × (s.hits ≤ t.hits)
    × (s.misses ≤ t.misses)
    × (t.sets ≡ s.sets)
    × (t.deletes ≡ s.deletes)
Counted (throw e) s t =
    (t.errors ≡ s.errors + 1)
    × (t.misses ≡ s.misses)
    × (s.hits ≤ t.hits)
    × (t.hits ≤ s.hits + 1)
    × (t.sets ≡ s.sets)
    × (t.deletes ≡ s.deletes)

module _ {Server Outside V : Type 0} (E : Type 0) (redis : Redis Server) (json : Json V) where
  parsed-Counted :
      (r : Except Text V) (w : World Server Outside)
      → let hit : World Server Outside = record w {
        stats = record w.stats { hits = w.stats.hits + 1 };
      } in
        Counted
          (parsed {E = E} redis json r hit).0
          w.stats
          (parsed {E = E} redis json r hit).1.stats
  unfolding parsed
  parsed-Counted (ok v) w = ground arith
  parsed-Counted (throw e) w = ground arith

  read-Counted :
      (r : Except Text (Option Text)) (w : World Server Outside)
      → Counted (read {E = E} redis json r w).0 w.stats (read {E = E} redis json r w).1.stats
  unfolding read
  read-Counted (throw e) w = ground arith
  read-Counted (ok none) w = ground arith
  read-Counted (ok (some x)) w = parsed-Counted (json.parse x) w

  -- A get that returns counts one hit or one miss, and one that throws an error, which is counted as a hit
  -- too if a value was found but could not be parsed.
  pub get-Counted :
      (k : Text) (o : CacheOptions) (w : World Server Outside)
      → Counted (get {E = E} redis json k o w).0 w.stats (get {E = E} redis json k o w).1.stats
  unfolding get
  get-Counted k o w =
      let (r, s) = redis.get (build_key k o.namespace) w.server in
      read-Counted r (record w { server = s })
