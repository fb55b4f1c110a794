-- ===== src/Infrastructure/Messaging.antt =====
-- The queue of the domain events (src/infrastructure/messaging): `EventPublisherImpl`, which puts them on
-- the queue and exhausted jobs on the dead letter queue, and `EventProcessorService`, which runs the
-- handlers of a job and remembers it in the cache. BullMQ is a parameter; what the handlers change is
-- the outside of the world of the cache.
pub mod Ledger
pub mod Once
use enterprise_system.Prelude.{
  ℕ, Bool, true, false, Option, none, some, List, [], ◌∷◌, ◌++◌, map, leb, if◌then◌else◌, Text,
  codes, Except, ok, throw,
}
use enterprise_system.Prelude.Action.{Action, pure, ◌>>=◌, ◌>>◌}
use enterprise_system.Prelude.Dict.{Dict, lookup, insert}
use enterprise_system.Infrastructure.Cache.{Redis, Json, World, CacheOptions, no_options, has, set}

-- The data of a job: the id and the name of the event, and the rest.
pub record Job (P : Type 0) : Type 0 where
  pub event_id : Text
  pub event_name : Text
  pub payload : P

-- What the publisher adds to a queue.
pub record Added (P : Type 0) : Type 0 where
  pub name : Text
  pub job_data : Job P
  pub job_id : Text

module _ {Queue P : Type 0}
    (add_bulk : List (Added P) → Queue → Except Text (Unit {0}) × Queue) where
  -- `publish`: what the queue throws is logged and dropped. `events` are the serialized events.
  unfoldable pub publish_events : List (Job P) → Queue → Queue
  publish_events [] q = q
  publish_events (e ∷ es) q =
      (add_bulk
        (map (λ (j : Job P). record { name = j.event_name; job_data = j; job_id = j.event_id })
          (e ∷ es))
        q).1

-- `job.opts.attempts ?? 3`
abbrev attempts_of : Option ℕ → ℕ
attempts_of none = 3
attempts_of (some n) = n

-- The listener of `failed`: what it adds to the dead letter queue.
unfoldable pub on_failed : {P : Type 0} → ℕ → Option ℕ → Job P → List (Added P)
on_failed attempts_made attempts job =
    if leb (attempts_of attempts) attempts_made
    then record {
      name = codes "failed-event";
      job_data = job;
      job_id = codes "dlq-" ++ job.event_id;
    }
      ∷ []
    else []

abbrev pub Handler : Type 0 → Type 0 → Type 0 → Type 0
Handler E Outside P = P → Action E Outside (Unit {0})

abbrev pub dedup_prefix : Text
dedup_prefix = codes "event-processed:"

abbrev pub dedup_options : CacheOptions
dedup_options = record { ttl = some 86400; namespace = none }

module _ {E Outside P : Type 0} where
  unfoldable pub register_handler :
      Text
      → Handler E Outside P
      → Dict (List (Handler E Outside P))
      → Dict (List (Handler E Outside P))
  unfolding lookup insert
  register_handler name handler m = elim (lookup name m) [
    | none ↦ insert name (handler ∷ []) m
    | some existing ↦ insert name (existing ++ handler ∷ []) m
  ]

  -- The handlers of an event one after the other; what one of them throws stops the rest.
  unfoldable pub run_handlers : List (Handler E Outside P) → P → Action E Outside (Unit {0})
  run_handlers [] p = pure tt
  run_handlers (h ∷ hs) p = h p >> run_handlers hs p

module _ {Server Outside : Type 0} (redis : Redis Server) where
  -- `has` does not throw.
  unfoldable pub is_already_processed : Text → World Server Outside → Bool × World Server Outside
  unfolding has
  is_already_processed event_id w = has redis (dedup_prefix ++ event_id) no_options w

module _ {Server Outside V : Type 0} (redis : Redis Server) (json : Json V) (one : V) where
  -- What `set` throws is logged and dropped. `one` is the text "1".
  unfoldable pub mark_processed : Text → World Server Outside → World Server Outside
  unfolding set
  mark_processed event_id w =
      (set {E = Text} redis json (dedup_prefix ++ event_id) one dedup_options w).1

module _ {Server Outside E V : Type 0} (redis : Redis Server) (json : Json V) (one : V) where
  -- Marks the event once its handlers returned.
  unfoldable pub mark :
      Text → Except E (Unit {0}) → World Server Outside → Except E (Unit {0}) × World Server Outside
  unfolding mark_processed
  mark event_id (throw e) w = (throw e, w)
  mark event_id (ok u) w = (ok tt, mark_processed redis json one event_id w)

module _ {Server Outside E V P : Type 0} (redis : Redis Server) (json : Json V) (one : V) where
  unfoldable pub handle :
      Option (List (Handler E Outside P))
      → Job P
      → World Server Outside
      → Except E (Unit {0}) × World Server Outside
  unfolding run_handlers mark
  handle none job w = (ok tt, w)
  handle (some []) job w = (ok tt, w)
  handle (some (h ∷ hs)) job w =
      let (r, o) = run_handlers (h ∷ hs) job.payload w.outside in
      mark redis json one job.event_id r (record w { outside = o })

  unfoldable pub process_event :
      Dict (List (Handler E Outside P))
      → Job P
      → World Server Outside
      → Except E (Unit {0}) × World Server Outside
  unfolding is_already_processed handle lookup
  process_event handlers job w =
      let (already_processed, w') = is_already_processed redis job.event_id w in
      if already_processed then (ok tt, w') else handle (lookup job.event_name handlers) job w'
