-- ===== src/Infrastructure/Cache.antt =====
-- `CacheService` (src/infrastructure/cache/cache.service.ts) over the client of Redis, `JSON` and the
-- class of the errors as parameters. The state is that of the server, that of the rest of the program,
-- which the factories change, and the statistics.
pub mod Laws
pub mod Counted
use enterprise_system.Prelude.{
  ℕ, ◌+◌, Bool, true, false, Option, none, some, List, [], ◌∷◌, ◌++◌, map, ltb, ◌==◌, length,
  if◌then◌else◌, Text, codes, text_eq, Except, ok, throw,
}

pub record CacheOptions : Type 0 where
  pub ttl : Option ℕ
  pub namespace : Option Text

pub record CacheStats : Type 0 where
  pub hits : ℕ
  pub misses : ℕ
  pub sets : ℕ
  pub deletes : ℕ
  pub errors : ℕ

-- The calls of the client of Redis; a call that fails gives the message of its error. `scan` gives the
-- batches of a scan stream, and the message if it broke off; `exec` runs a pipeline of deletions.
pub record Redis (Server : Type 0) : Type 0 where
  pub get : Text → Server → Except Text (Option Text) × Server
  pub setex : Text → ℕ → Text → Server → Except Text (Unit {0}) × Server
  pub del : List Text → Server → Except Text ℕ × Server
  pub exists : Text → Server → Except Text ℕ × Server
  pub scan : Text → Server → (List (List Text) × Option Text) × Server
  pub exec : List Text → Server → Except Text (Unit {0}) × Server
  pub ping : Server → Except Text Text × Server

-- `JSON` on the values that are cached, one of which is `null`.
pub record Json (V : Type 0) : Type 0 where
  pub stringify : V → Except Text Text
  pub parse : Text → Except Text V
  pub null : V
  pub is_null : V → Bool

-- What a call throws: the error of the cache with its message, or what a factory threw.
pub data Failure (E : Type 0) : Type 0 where
  cache_error : Text → Failure E
  thrown : E → Failure E

pub record World (Server Outside : Type 0) : Type 0 where
  pub server : Server
  pub outside : Outside
  pub stats : CacheStats

unfoldable pub initial_stats : CacheStats
initial_stats = record { hits = 0; misses = 0; sets = 0; deletes = 0; errors = 0 }

abbrev pub no_options : CacheOptions
no_options = record { ttl = none; namespace = none }

-- `defaultTtl`, in seconds.
abbrev pub default_ttl : ℕ
default_ttl = 300

unfoldable pub build_key : Text → Option Text → Text
build_key key none = key
build_key key (some []) = key
build_key key (some (c ∷ ns)) = (c ∷ ns) ++ codes ":" ++ key

-- `options?.ttl ?? this.defaultTtl`
abbrev pub ttl_of : Option ℕ → ℕ
ttl_of none = default_ttl
ttl_of (some t) = t

-- The keys of the batches of a scan, which are put into the pipeline one by one.
unfoldable pub scanned : List (List Text) → List Text
scanned [] = []
scanned (keys ∷ batches) = keys ++ scanned batches

-- `args.join(':')`
unfoldable pub join_args : List Text → Text
join_args [] = []
join_args (a ∷ []) = a
join_args (a ∷ b ∷ args) = a ++ codes ":" ++ join_args (b ∷ args)

module _ {Server Outside : Type 0} where
  unfoldable pub existed : Except Text ℕ → World Server Outside → Bool × World Server Outside
  existed (ok n) w = (n == 1, w)
  existed (throw e) w = (false, record w { stats = record w.stats { errors = w.stats.errors + 1 } })

module _ {Server Outside : Type 0} (redis : Redis Server) where
  -- Fails to `false`.
  unfoldable pub has : Text → CacheOptions → World Server Outside → Bool × World Server Outside
  unfolding build_key existed
  has key options w =
      let (r, s) = redis.exists (build_key key options.namespace) w.server in
      existed r (record w { server = s })

  -- Does not throw: the number of the keys seen comes back even if the scan or the pipeline failed.
  unfoldable pub invalidate_pattern : Text → World Server Outside → ℕ × World Server Outside
  unfolding build_key scanned
  invalidate_pattern pattern w =
      let ((batches, broken), s) = redis.scan (build_key pattern none) w.server in
      let keys = scanned batches in
      elim broken [
        | some e ↦ (
          length keys,
          record w { server = s; stats = record w.stats { errors = w.stats.errors + 1 } },
        )
        | none ↦
            let (r, s') = redis.exec keys s in
            elim r [
              | ok _ ↦ (
                length keys,
                record w {
                  server = s';
                  stats = record w.stats { deletes = w.stats.deletes + length keys };
                },
              )
              | throw e ↦ (
                length keys,
                record w { server = s'; stats = record w.stats { errors = w.stats.errors + 1 } },
              )
            ]
      ]

  unfoldable pub is_healthy : World Server Outside → Bool × World Server Outside
  unfolding text_eq
  is_healthy w =
      let (r, s) = redis.ping w.server in
      elim r [
        | ok answer ↦ (text_eq answer (codes "PONG"), record w { server = s })
        | throw e ↦ (false, record w { server = s })
      ]

module _ {Server Outside E V : Type 0} (redis : Redis Server) (json : Json V) where
  -- The `catch` of an operation.
  abbrev pub failed :
      {A : Type 0}
      → Text
      → Text
      → World Server Outside
      → Except (Failure E) A × World Server Outside
  failed what message w = (
    throw (cache_error (what ++ message)),
    record w { stats = record w.stats { errors = w.stats.errors + 1 } },
  )

  unfoldable pub parsed :
      Except Text V → World Server Outside → Except (Failure E) V × World Server Outside
  parsed (ok v) w = (ok v, w)
  parsed (throw e) w = failed (codes "Cache get failed: ") e w

  -- The statistics count the hit before the value is parsed.
  unfoldable pub read :
      Except Text (Option Text) → World Server Outside → Except (Failure E) V × World Server Outside
  unfolding parsed
  read (throw e) w = failed (codes "Cache get failed: ") e w
  read (ok none) w =
      (ok json.null, record w { stats = record w.stats { misses = w.stats.misses + 1 } })
  read (ok (some raw)) w =
      parsed (json.parse raw) (record w { stats = record w.stats { hits = w.stats.hits + 1 } })

  unfoldable pub get :
      Text → CacheOptions → World Server Outside → Except (Failure E) V × World Server Outside
  unfolding read build_key
  get key options w =
      let (r, s) = redis.get (build_key key options.namespace) w.server in
      read r (record w { server = s })

  unfoldable pub wrote :
      Except Text (Unit {0})
      → World Server Outside
      → Except (Failure E) (Unit {0}) × World Server Outside
  wrote (throw e) w = failed (codes "Cache set failed: ") e w
  wrote (ok u) w = (ok tt, record w { stats = record w.stats { sets = w.stats.sets + 1 } })

  -- Writes a value that was serialized.
  unfoldable pub write :
      Text
      → CacheOptions
      → Except Text Text
      → World Server Outside
      → Except (Failure E) (Unit {0}) × World Server Outside
  unfolding build_key wrote
  write key options (throw e) w = failed (codes "Cache set failed: ") e w
  write key options (ok serialized) w =
      let (r, s) =
        redis.setex (build_key key options.namespace) (ttl_of options.ttl) serialized w.server in
      wrote r (record w { server = s })

  unfoldable pub set :
      Text
      → V
      → CacheOptions
      → World Server Outside
      → Except (Failure E) (Unit {0}) × World Server Outside
  unfolding write
  set key value options w = write key options (json.stringify value) w

  -- A single key is the list of it. No key, no call.
  unfoldable pub delete :
      List Text
      → CacheOptions
      → World Server Outside
      → Except (Failure E) (Unit {0}) × World Server Outside
  unfolding build_key
  delete [] options w = (ok tt, w)
  delete (k ∷ ks) options w =
      let full = map (λ j. build_key j options.namespace) (k ∷ ks) in
      let (r, s) = redis.del full w.server in
      elim r [
        | ok _ ↦ (
          ok tt,
          record w {
            server = s;
            stats = record w.stats { deletes = w.stats.deletes + length full };
          },
        )
        | throw e ↦ failed (codes "Cache delete failed: ") e (record w { server = s })
      ]

  -- What the factory does to the rest of the program, in the world of the cache.
  abbrev pub call_factory :
      (Outside → Except E V × Outside)
      → World Server Outside
      → Except (Failure E) V × World Server Outside
  call_factory factory w =
      let (r, o) = factory w.outside in
      elim r [
        | ok v ↦ (ok v, record w { outside = o })
        | throw e ↦ (throw (thrown e), record w { outside = o })
      ]

  -- What is returned once the value was written.
  unfoldable pub returned :
      V
      → Except (Failure E) (Unit {0}) × World Server Outside
      → Except (Failure E) V × World Server Outside
  returned v (ok u, w) = (ok v, w)
  returned v (throw e, w) = (throw e, w)

  -- Caches what the factory returned.
  unfoldable pub store :
      Text
      → CacheOptions
      → Except (Failure E) V × World Server Outside
      → Except (Failure E) V × World Server Outside
  unfolding set returned
  store key options (throw e, w) = (throw e, w)
  store key options (ok v, w) = returned v (set key v options w)

  unfoldable pub fetched :
      Text
      → (Outside → Except E V × Outside)
      → CacheOptions
      → Except (Failure E) V × World Server Outside
      → Except (Failure E) V × World Server Outside
  unfolding store
  fetched key factory options (throw e, w) = (throw e, w)
  fetched key factory options (ok v, w) =
      if json.is_null v then store key options (call_factory factory w) else (ok v, w)

  unfoldable pub get_or_set :
      Text
      → (Outside → Except E V × Outside)
      → CacheOptions
      → World Server Outside
      → Except (Failure E) V × World Server Outside
  unfolding get fetched
  get_or_set key factory options w = fetched key factory options (get key options w)

  -- A method under `@Cached`, called with arguments, given as texts. Without a cache service it is called
  -- as it is.
  unfoldable pub cached :
      Bool
      → Text
      → CacheOptions
      → (List Text → Outside → Except E V × Outside)
      → List Text
      → World Server Outside
      → Except (Failure E) V × World Server Outside
  unfolding get_or_set join_args
  cached false key options method args w = call_factory (method args) w
  cached true key options method args w =
      get_or_set (key ++ codes ":" ++ join_args args) (method args) options w
