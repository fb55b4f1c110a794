-- ===== src/Infrastructure/Cache/Laws.antt =====
-- What the cache gives back: `getOrSet` and `@Cached` over a client that behaves as documented, and
-- what the statistics count.
use enterprise_system.Prelude.{
  ℕ, ◌≡◌, true, false, Option, none, some, List, ◌++◌, refl, sym, inl, inr, Text, codes, Except, ok,
  throw, Bool-cases, arith,
}
use enterprise_system.Infrastructure.Cache.{
  Redis, Json, Failure, World, CacheOptions, build_key, ttl_of, parsed, read, get, wrote, write,
  set, returned, store, fetched, get_or_set, join_args, cached,
}

-- What Redis documents of one key while no time passes and nobody else writes: a value that was set is
-- read, and reading it does not change it.
pub record Documented {Server : Type 0} (redis : Redis Server) : Type 0 where
  pub get_setex :
      (k : Text) (t : ℕ) (x : Text) (s : Server)
      → (redis.setex k t x s).0 ≡ ok tt
      → (redis.get k (redis.setex k t x s).1).0 ≡ ok (some x)
  pub get_get :
      (k x : Text) (s : Server)
      → (redis.get k s).0 ≡ ok (some x)
      → (redis.get k (redis.get k s).1).0 ≡ ok (some x)

-- `JSON` reads back the values that it writes, which are those that the program caches.
pub record Faithful {V : Type 0} (json : Json V) : Type 0 where
  pub parse_stringify : (v : V) (x : Text) → json.stringify v ≡ ok x → json.parse x ≡ ok v
  pub null_is_null : json.is_null json.null ≡ true

-- The server holds a value under a key.
abbrev Holds : {Server V : Type 0} → Redis Server → Json V → Text → V → Server → Type 0
Holds redis json k v s = (x : Text) × ((redis.get k s).0 ≡ ok (some x)) × (json.parse x ≡ ok v)

module _ {Server Outside E V : Type 0} (redis : Redis Server) (json : Json V)
    (redis_laws : Documented redis) (json_laws : Faithful json) where
  parsed-ok :
      (r : Except Text V) (w : World Server Outside) (v : V)
      → (parsed {E = E} redis json r w).0 ≡ ok v
      → (r ≡ ok v) × ((parsed {E = E} redis json r w).1.server ≡ w.server)
  unfolding parsed
  parsed-ok (ok u) w v h = (cc, refl)
  parsed-ok (throw e) w v h = absurd (ground arith)

  read-ok :
      (r : Except Text (Option Text)) (w : World Server Outside) (v : V)
      → (read {E = E} redis json r w).0 ≡ ok v
      → json.is_null v ≡ false
      → (x : Text) × (r ≡ ok (some x))
        × (json.parse x ≡ ok v)
        × ((read {E = E} redis json r w).1.server ≡ w.server)
  unfolding read
  read-ok (throw e) w v h n = absurd (ground arith)
  read-ok (ok none) w v h n = absurd (ground (arith, json_laws.null_is_null))
  read-ok (ok (some x)) w v h n = let (p, q) = parsed-ok (json.parse x) _ v h in (x, refl, p, q)

  get-ok :
      (k : Text) (o : CacheOptions) (w : World Server Outside) (v : V)
      → (get {E = E} redis json k o w).0 ≡ ok v
      → json.is_null v ≡ false
      → Holds redis json (build_key k o.namespace) v (get {E = E} redis json k o w).1.server
  unfolding get
  get-ok k o w v h n =
      let full = build_key k o.namespace in
      let (r, s) = redis.get full w.server in
      let (x, e, p, q) = read-ok r (record w { server = s }) v h n in
      (x, rw q (redis_laws.get_get full x w.server e), p)

  get-Holds :
      (k : Text) (o : CacheOptions) (w : World Server Outside) (v : V)
      → Holds redis json (build_key k o.namespace) v w.server
      → ((get {E = E} redis json k o w).0 ≡ ok v)
        × ((get {E = E} redis json k o w).1.outside ≡ w.outside)
  unfolding get read parsed
  get-Holds k o w v (x, e, p) = rw (e, get) (rw p (refl, refl))

  wrote-ok :
      (r : Except Text (Unit {0})) (w : World Server Outside) (u : Unit {0})
      → (wrote {E = E} redis json r w).0 ≡ ok u
      → (r ≡ ok tt) × ((wrote {E = E} redis json r w).1.server ≡ w.server)
  unfolding wrote
  wrote-ok (ok _) w u h = (refl, refl)
  wrote-ok (throw e) w u h = absurd (ground arith)

  write-ok :
      (k : Text) (o : CacheOptions) (v : V) (r : Except Text Text) (w : World Server Outside)
      (u : Unit {0})
      → json.stringify v ≡ r
      → (write {E = E} redis json k o r w).0 ≡ ok u
      → Holds redis json (build_key k o.namespace) v (write {E = E} redis json k o r w).1.server
  unfolding write
  write-ok k o v (throw e) w u j h = absurd (ground arith)
  write-ok k o v (ok x) w u j h =
      let full = build_key k o.namespace in
      let (r, s) = redis.setex full (ttl_of o.ttl) x w.server in
      let (e, q) = wrote-ok r (record w { server = s }) u h in
      (
        x,
        rw q (redis_laws.get_setex full (ttl_of o.ttl) x w.server e),
        json_laws.parse_stringify v x j,
      )

  -- What was set is what is got, until it expires.
  set-ok :
      (k : Text) (o : CacheOptions) (v : V) (w : World Server Outside) (u : Unit {0})
      → (set {E = E} redis json k v o w).0 ≡ ok u
      → Holds redis json (build_key k o.namespace) v (set {E = E} redis json k v o w).1.server
  unfolding set
  set-ok k o v w u h = write-ok k o v (json.stringify v) w u refl h

  returned-ok :
      (k : Text) (o : CacheOptions) (a v : V)
      (r : Except (Failure E) (Unit {0}) × World Server Outside)
      → (r.0 ≡ ok tt → Holds redis json k a r.1.server)
      → (returned redis json a r).0 ≡ ok v
      → Holds redis json k v (returned redis json a r).1.server
  unfolding returned
  returned-ok k o a v (ok u, w) f h = let same : a ≡ v = cc in rw (sym same) (f refl)
  returned-ok k o a v (throw e, w) f h = absurd (ground arith)

  store-ok :
      (k : Text) (o : CacheOptions) (r : Except (Failure E) V × World Server Outside) (v : V)
      → (store redis json k o r).0 ≡ ok v
      → Holds redis json (build_key k o.namespace) v (store redis json k o r).1.server
  unfolding store
  store-ok k o (throw e, w) v h = absurd (ground arith)
  store-ok k o (ok a, w) v h =
      returned-ok (build_key k o.namespace) o a v (set redis json k a o w) (set-ok k o a w tt) h

  fetched-ok :
      (k : Text) (f : Outside → Except E V × Outside) (o : CacheOptions)
      (r : Except (Failure E) V × World Server Outside) (v : V)
      → ((a : V)
          → r.0 ≡ ok a
          → json.is_null a ≡ false
          → Holds redis json (build_key k o.namespace) a r.1.server)
      → (fetched redis json k f o r).0 ≡ ok v
      → Holds redis json (build_key k o.namespace) v (fetched redis json k f o r).1.server
  unfolding fetched
  fetched-ok k f o (throw e, w) v g h = absurd (ground arith)
  fetched-ok k f o (ok a, w) v g h = elim (Bool-cases (json.is_null a)) [
    | inl e ↦ let h' = rw e at h in rw e (store-ok k o _ v h')
    | inr e ↦ let h' = rw e at h in let same : a ≡ v = cc in rw e (rw (sym same) (g a refl e))
  ]

  get_or_set-ok :
      (k : Text) (f : Outside → Except E V × Outside) (o : CacheOptions) (w : World Server Outside)
      (v : V)
      → (get_or_set redis json k f o w).0 ≡ ok v
      → Holds redis json (build_key k o.namespace) v (get_or_set redis json k f o w).1.server
  unfolding get_or_set
  get_or_set-ok k f o w v h = fetched-ok k f o (get redis json k o w) v (λ a. get-ok k o w a) h

  -- A value other than null that getOrSet returned is what it returns again, until it expires, without
  -- a call of the factory, whatever factory is given.
  pub get_or_set-get_or_set :
      (k : Text) (f g : Outside → Except E V × Outside) (o : CacheOptions)
      (w : World Server Outside) (v : V)
      → (get_or_set redis json k f o w).0 ≡ ok v
      → json.is_null v ≡ false
      → ((get_or_set redis json k g o (get_or_set redis json k f o w).1).0 ≡ ok v)
        × ((get_or_set redis json k g o (get_or_set redis json k f o w).1).1.outside
            ≡ (get_or_set redis json k f o w).1.outside)
  unfolding get_or_set fetched
  get_or_set-get_or_set k f g o w v h n =
      let w' = (get_or_set redis json k f o w).1 in
      let (p, q) = get-Holds k o w' v (get_or_set-ok k f o w v h) in
      let (r, w'') = get {E = E} redis json k o w' in rw (p, fetched) (rw n (refl, q))

  -- A value other than null that a method under @Cached returned is what it returns, without a call, for
  -- all arguments whose texts are joined to the same text, until it expires.
  pub cached-cached :
      (key : Text) (o : CacheOptions) (method : List Text → Outside → Except E V × Outside)
      (args others : List Text) (w : World Server Outside) (v : V)
      → join_args args ≡ join_args others
      → (cached redis json true key o method args w).0 ≡ ok v
      → json.is_null v ≡ false
      → ((cached redis json true key o method others
            (cached redis json true key o method args w).1).0
          ≡ ok v)
        × ((cached redis json true key o method others
              (cached redis json true key o method args w).1).1.outside
            ≡ (cached redis json true key o method args w).1.outside)
  unfolding cached
  cached-cached key o method args others w v j h n = rw (← j) (
      get_or_set-get_or_set (key ++ codes ":" ++ join_args args) (method args) (method others) o w v
        h n)
