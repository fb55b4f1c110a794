-- ===== src/Infrastructure/Messaging/Ledger.antt =====
-- The processor of the events against its contract: a ledger of the events that are done, and the
-- outside that the handlers change.
use enterprise_system.Prelude.{
  ℕ, ◌≡◌, Bool, true, false, Option, none, some, List, [], ◌∷◌, ◌++◌, refl, ap, ◌∙◌, if◌then◌else◌,
  Text, text_eq, Except, ok, throw, Bool-cases, inl, inr, arith,
}
use enterprise_system.Prelude.Dict.{Dict, lookup}
use enterprise_system.Infrastructure.Cache.{
  Redis, Json, World, existed, has, set, write, wrote, build_key,
}
use enterprise_system.Infrastructure.Messaging.{
  Job, Handler, dedup_prefix, run_handlers, is_already_processed, mark_processed, mark, handle,
  process_event,
}

-- What Redis documents of the keys that are there, while it is reachable and no key expires.
pub record Keyspace {Server : Type 0} (redis : Redis Server) : Type 0 where
  pub there : Server → Text → Bool
  pub exists_there :
      (k : Text) (s : Server) → (redis.exists k s).0 ≡ ok (if there s k then 1 else 0)
  pub there_exists : (k j : Text) (s : Server) → there (redis.exists k s).1 j ≡ there s j
  pub there_setex :
      (k : Text) (t : ℕ) (x : Text) (s : Server) (j : Text)
      → there (redis.setex k t x s).1 j ≡ (if text_eq k j then true else there s j)

pub record Ledger (Outside : Type 0) : Type 0 where
  pub done : Text → Bool
  pub outside : Outside

module _ {E Outside : Type 0} where
  -- Done once the handlers returned.
  abbrev pub settle :
      Text → (Text → Bool) → Except E (Unit {0}) × Outside → Except E (Unit {0}) × Ledger Outside
  settle id done (throw e, o) = (throw e, record { done = done; outside = o })
  settle id done (ok u, o) =
      (ok tt, record { done = λ j. if text_eq id j then true else done j; outside = o })

module _ {E Outside P : Type 0} where
  abbrev pub perform :
      Option (List (Handler E Outside P))
      → Job P
      → Ledger Outside
      → Except E (Unit {0}) × Ledger Outside
  perform none job l = (ok tt, l)
  perform (some []) job l = (ok tt, l)
  perform (some (h ∷ hs)) job l =
      settle job.event_id l.done (run_handlers (h ∷ hs) job.payload l.outside)

  -- The contract: an event that is done is left alone; the handlers of any other are run, and it is done
  -- if there are some and all of them returned.
  abbrev pub deliver :
      Dict (List (Handler E Outside P))
      → Job P
      → Ledger Outside
      → Except E (Unit {0}) × Ledger Outside
  deliver handlers job l =
      if l.done job.event_id then (ok tt, l) else perform (lookup job.event_name handlers) job l

  abbrev pub deliver_all :
      Dict (List (Handler E Outside P))
      → List (Job P)
      → Ledger Outside
      → List (Except E (Unit {0})) × Ledger Outside
  deliver_all handlers [] l = ([], l)
  deliver_all handlers (job ∷ jobs) l =
      let (r, l') = deliver handlers job l in
      let (rs, l'') = deliver_all handlers jobs l' in (r ∷ rs, l'')

module _ {Server Outside E V P : Type 0} (redis : Redis Server) (json : Json V) (one : V) where
  abbrev pub process_all :
      Dict (List (Handler E Outside P))
      → List (Job P)
      → World Server Outside
      → List (Except E (Unit {0})) × World Server Outside
  process_all handlers [] w = ([], w)
  process_all handlers (job ∷ jobs) w =
      let (r, w') = process_event redis json one handlers job w in
      let (rs, w'') = process_all handlers jobs w' in (r ∷ rs, w'')

module _ {Server Outside : Type 0} (redis : Redis Server) (keys : Keyspace redis) where
  -- The world shows the ledger.
  abbrev pub Shows : World Server Outside → Ledger Outside → Type 0
  Shows w l =
      (w.outside ≡ l.outside) × ((id : Text) → keys.there w.server (dedup_prefix ++ id) ≡ l.done id)

  existed-there :
      (r : Except Text ℕ) (b : Bool) (w : World Server Outside)
      → r ≡ ok (if b then 1 else 0)
      → existed r w ≡ (b, w)
  unfolding existed
  existed-there (ok n) true w h = ground arith
  existed-there (ok n) false w h = ground arith
  existed-there (throw e) true w h = absurd (ground arith)
  existed-there (throw e) false w h = absurd (ground arith)

  is_already_processed-Shows :
      (id : Text) (w : World Server Outside) (l : Ledger Outside)
      → Shows w l
      → ((is_already_processed redis id w).0 ≡ l.done id)
        × Shows (is_already_processed redis id w).1 l
  unfolding is_already_processed has build_key
  is_already_processed-Shows id w l (o, d) =
      let k = dedup_prefix ++ id in
      let e = d id in
      let s = (redis.exists k w.server).1 in
      rw
        (existed-there _ (l.done id) (record w { server = s })
          (keys.exists_there k w.server ∙ ap (λ b. ok (if b then 1 else 0)) e))
        (refl, (o, λ j. keys.there_exists k (dedup_prefix ++ j) w.server ∙ d j))

module _ {Server Outside V : Type 0} (redis : Redis Server) (keys : Keyspace redis) (json : Json V)
    (one : V) (x : Text) (written : json.stringify one ≡ ok x) where
  wrote-same :
      (r : Except Text (Unit {0})) (w : World Server Outside)
      → ((wrote {E = Text} redis json r w).1.server ≡ w.server)
        × ((wrote {E = Text} redis json r w).1.outside ≡ w.outside)
  unfolding wrote
  wrote-same (throw e) w = (refl, refl)
  wrote-same (ok u) w = (refl, refl)

  mark_processed-Shows :
      (id : Text) (w : World Server Outside) (l : Ledger Outside)
      → Shows redis keys w l
      → Shows redis keys
          (mark_processed redis json one id w)
          (record l { done = λ j. if text_eq id j then true else l.done j })
  unfolding mark_processed set write build_key wrote text_eq
  mark_processed-Shows id w l (o, d) =
      let k = dedup_prefix ++ id in
      let (r, s) = redis.setex k 86400 x w.server in
      let (p, q) = wrote-same r (record w { server = s }) in
      rw (written, mark_processed)
        (
          q ∙ o,
          λ j. rw p (
              keys.there_setex k 86400 x w.server (dedup_prefix ++ j)
              ∙ ap (λ t. if text_eq id j then true else t) (d j)),
        )

module _ {Server Outside E V : Type 0} (redis : Redis Server) (keys : Keyspace redis)
    (json : Json V) (one : V) (x : Text) (written : json.stringify one ≡ ok x) where
  mark-settle :
      (id : Text) (r : Except E (Unit {0}) × Outside) (w : World Server Outside)
      (l : Ledger Outside)
      → Shows redis keys (record w { outside = r.1 }) (record l { outside = r.1 })
      → ((mark redis json one id r.0 (record w { outside = r.1 })).0 ≡ (settle id l.done r).0)
        × Shows redis keys
            (mark redis json one id r.0 (record w { outside = r.1 })).1
            (settle id l.done r).1
  unfolding mark
  mark-settle id (throw e, o) w l h = (refl, h)
  mark-settle id (ok u, o) w l h =
      (refl, mark_processed-Shows redis keys json one x written id _ _ h)

module _ {Server Outside E V P : Type 0} (redis : Redis Server) (keys : Keyspace redis)
    (json : Json V) (one : V) (x : Text) (written : json.stringify one ≡ ok x) where
  handle-perform :
      (hs : Option (List (Handler E Outside P))) (job : Job P) (w : World Server Outside)
      (l : Ledger Outside)
      → Shows redis keys w l
      → ((handle redis json one hs job w).0 ≡ (perform hs job l).0)
        × Shows redis keys (handle redis json one hs job w).1 (perform hs job l).1
  unfolding handle
  handle-perform none job w l h = (refl, h)
  handle-perform (some []) job w l h = (refl, h)
  handle-perform (some (f ∷ fs)) job w l (o, d) = rw (← o) (
      mark-settle redis keys json one x written job.event_id
        (run_handlers (f ∷ fs) job.payload w.outside) w l (refl, d))

  pub process_event-deliver :
      (hs : Dict (List (Handler E Outside P))) (job : Job P) (w : World Server Outside)
      (l : Ledger Outside)
      → Shows redis keys w l
      → ((process_event redis json one hs job w).0 ≡ (deliver hs job l).0)
        × Shows redis keys (process_event redis json one hs job w).1 (deliver hs job l).1
  unfolding process_event
  process_event-deliver hs job w l h =
      let (a, h') = is_already_processed-Shows redis keys job.event_id w l h in
      elim (Bool-cases (l.done job.event_id)) [
        | inl e ↦ rw (a ∙ e, process_event) (rw e (refl, h'))
        | inr e ↦
            rw (a ∙ e, process_event) (rw e (handle-perform (lookup job.event_name hs) job _ l h'))
      ]

  -- While Redis is reachable and no key expires, any sequence of deliveries gives the results of the
  -- ledger and leaves what its handlers leave: an event that is done is left alone, and any other is done
  -- once it has handlers and all of them return.
  pub process_all-deliver_all :
      (hs : Dict (List (Handler E Outside P))) (jobs : List (Job P)) (w : World Server Outside)
      (l : Ledger Outside)
      → Shows redis keys w l
      → ((process_all redis json one hs jobs w).0 ≡ (deliver_all hs jobs l).0)
        × Shows redis keys (process_all redis json one hs jobs w).1 (deliver_all hs jobs l).1
  process_all-deliver_all hs [] w l h = (refl, h)
  process_all-deliver_all hs (job ∷ jobs) w l h =
      let (p, h') = process_event-deliver hs job w l h in
      let (q, h'') =
        process_all-deliver_all hs jobs (process_event redis json one hs job w).1
          (deliver hs job l).1 h' in
      (cc, h'')
