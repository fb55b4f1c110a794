-- ===== src/Tests/Caches.antt =====
-- The cache and the processor of events over a server that is an association list.
use enterprise_system.Prelude.{
  ℕ, ◌+◌, ◌≡◌, true, false, Option, none, some, List, [], ◌∷◌, refl, if◌then◌else◌, ◌==◌, Text,
  codes, text_eq, text_eq_refl, Except, ok, throw, is_some, arith, length,
}
use enterprise_system.Prelude.Dict.{Dict, lookup, insert, lookup-insert}
use enterprise_system.Infrastructure.Cache.{
  Redis, Json, World, no_options, initial_stats, get_or_set,
}
use enterprise_system.Infrastructure.Cache.Laws.{Documented, Faithful, get_or_set-get_or_set}
use enterprise_system.Infrastructure.Messaging.{Job, Handler, process_event}
use enterprise_system.Infrastructure.Messaging.Ledger.{
  Keyspace, Ledger, deliver_all, process_all, Shows, process_all-deliver_all,
}
use enterprise_system.Infrastructure.Messaging.Once.{process_event-once}

-- A server that never fails and where nothing expires.
abbrev memory : Redis (Dict Text)
memory = record {
  get = λ k s. (ok (lookup k s), s);
  setex = λ k t x s. (ok tt, insert k x s);
  del = λ ks s. (ok (length ks), s);
  exists = λ k s. (ok (if is_some (lookup k s) then 1 else 0), s);
  scan = λ k s. (([], none), s);
  exec = λ ks s. (ok tt, s);
  ping = λ s. (ok (codes "PONG"), s);
}

-- A notation for the texts and `null` in the place of JSON.
abbrev parse_text : Text → Except Text (Option Text)
parse_text [] = throw (codes "Unexpected end of JSON input")
parse_text (c ∷ t) = if c == b'n' then ok none else ok (some t)

abbrev texts : Json (Option Text)
texts = record {
  stringify = λ v. elim v [ none ↦ ok (codes "null") | some t ↦ ok (b'"' ∷ t) ];
  parse = parse_text;
  null = none;
  is_null = λ v. elim v [ none ↦ true | some t ↦ false ];
}

memory-Documented : Documented memory
unfolding lookup insert text_eq
memory-Documented = record {
  get_setex = λ k t x s h. rw (lookup-insert k k x s) (rw (text_eq_refl k) refl);
  get_get = λ k x s h. h;
}

texts-Faithful : Faithful texts
texts-Faithful = record { parse_stringify = reads; null_is_null = refl }
  where
    same : (a b : Text) → Path (Except Text Text) (ok a) (ok b) → a ≡ b
    same a b h = cc

    reads : (v : Option Text) (x : Text) → texts.stringify v ≡ ok x → texts.parse x ≡ ok v
    reads none x h = rw (← same _ x h) refl
    reads (some t) x h = rw (← same _ x h) refl

memory-Keyspace : Keyspace memory
unfolding lookup insert text_eq
memory-Keyspace = record {
  there = λ s k. is_some (lookup k s);
  exists_there = λ k s. refl;
  there_exists = λ k j s. refl;
  there_setex = λ k t x s j. rw (lookup-insert k j x s) (ground arith);
}

abbrev empty : World (Dict Text) ℕ
empty = record { server = []; outside = 0; stats = initial_stats }

-- Counts its calls.
abbrev factory : Text → ℕ → Except Text (Option Text) × ℕ
factory v n = (ok (some v), n + 1)

get_or_set-get_or_set_example :
    ((get_or_set memory texts
        (codes "user:1")
        (factory (codes "Eve"))
        no_options
        (get_or_set memory texts (codes "user:1") (factory (codes "Ann")) no_options empty).1).0
      ≡ ok (some (codes "Ann")))
    × ((get_or_set memory texts
          (codes "user:1")
          (factory (codes "Eve"))
          no_options
          (get_or_set memory texts
            (codes "user:1")
            (factory (codes "Ann"))
            no_options
            empty).1).1.outside
        ≡ (get_or_set memory texts
            (codes "user:1")
            (factory (codes "Ann"))
            no_options
            empty).1.outside)
unfolding lookup insert text_eq get_or_set
get_or_set-get_or_set_example =
    get_or_set-get_or_set memory texts memory-Documented texts-Faithful (codes "user:1")
      (factory (codes "Ann")) (factory (codes "Eve")) no_options empty (some (codes "Ann")) refl
      refl

-- A method that returns its first argument.
abbrev first_argument : List Text → ℕ → Except Text (Option Text) × ℕ
first_argument [] n = (ok none, n + 1)
first_argument (a ∷ args) n = (ok (some a), n + 1)

-- Adds the payload to the outside, or fails on 0.
abbrev adder : Handler Text ℕ ℕ
adder p n = if p == 0 then (throw (codes "zero"), n) else (ok tt, n + p)

abbrev handlers : Dict (List (Handler Text ℕ ℕ))
handlers = (codes "UserCreated", adder ∷ adder ∷ []) ∷ []

abbrev created : Job ℕ
created = record { event_id = codes "e1"; event_name = codes "UserCreated"; payload = 5 }

abbrev broken : Job ℕ
broken = record { event_id = codes "e2"; event_name = codes "UserCreated"; payload = 0 }

abbrev one : Option Text
one = some (codes "1")

abbrev blank : Ledger ℕ
blank = record { done = λ id. false; outside = 0 }

process_all-deliver_all_example :
    ((process_all memory texts one handlers (created ∷ broken ∷ created ∷ broken ∷ []) empty).0
      ≡ (deliver_all handlers (created ∷ broken ∷ created ∷ broken ∷ []) blank).0)
    × Shows memory memory-Keyspace
        (process_all memory texts one handlers (created ∷ broken ∷ created ∷ broken ∷ []) empty).1
        (deliver_all handlers (created ∷ broken ∷ created ∷ broken ∷ []) blank).1
unfolding lookup memory-Keyspace
process_all-deliver_all_example =
    process_all-deliver_all memory memory-Keyspace texts one (b'"' ∷ codes "1") refl handlers
      (created ∷ broken ∷ created ∷ broken ∷ []) empty blank (refl, λ id. refl)

process_event-once_example :
    ((process_event memory texts one handlers created
        (process_all memory texts one handlers
          (broken ∷ [])
          (process_event memory texts one handlers created empty).1).1).0
      ≡ ok tt)
    × ((process_event memory texts one handlers created
          (process_all memory texts one handlers
            (broken ∷ [])
            (process_event memory texts one handlers created empty).1).1).1.outside
        ≡ (process_all memory texts one handlers
            (broken ∷ [])
            (process_event memory texts one handlers created empty).1).1.outside)
unfolding lookup insert text_eq process_event
process_event-once_example =
    process_event-once memory memory-Keyspace texts one (b'"' ∷ codes "1") refl handlers created
      (broken ∷ []) empty adder (adder ∷ []) refl refl
