-- ===== src/Infrastructure/Messaging/Once.antt =====
-- That the handlers of an event that was processed are not run again.
use enterprise_system.Prelude.{
  ◌≡◌, Bool, true, Option, none, some, List, [], ◌∷◌, refl, sym, ◌∙◌, ◌++◌, ap, Text, text_eq_refl,
  Except, ok, throw, Bool-cases, inl, inr, arith,
}
use enterprise_system.Prelude.Dict.{Dict, lookup}
use enterprise_system.Infrastructure.Cache.{Redis, Json, World}
use enterprise_system.Infrastructure.Messaging.{Job, Handler, process_event, dedup_prefix}
use enterprise_system.Infrastructure.Messaging.Ledger.{
  Keyspace, Ledger, settle, perform, deliver, deliver_all, process_all, process_event-deliver,
  process_all-deliver_all,
}

module _ {E Outside : Type 0} where
  settle-done :
      (id j : Text) (done : Text → Bool) (r : Except E (Unit {0}) × Outside)
      → done j ≡ true
      → (settle id done r).1.done j ≡ true
  settle-done id j done (throw e, o) h = h
  settle-done id j done (ok u, o) h = ground arith

  settle-ok :
      (id : Text) (done : Text → Bool) (r : Except E (Unit {0}) × Outside)
      → (settle id done r).0 ≡ ok tt
      → (settle id done r).1.done id ≡ true
  settle-ok id done (throw e, o) h = absurd (ground arith)
  settle-ok id done (ok u, o) h = rw (text_eq_refl id) refl

module _ {E Outside P : Type 0} where
  perform-done :
      (hs : Option (List (Handler E Outside P))) (job : Job P) (j : Text) (l : Ledger Outside)
      → l.done j ≡ true
      → (perform hs job l).1.done j ≡ true
  perform-done none job j l h = h
  perform-done (some []) job j l h = h
  perform-done (some (f ∷ fs)) job j l h = settle-done job.event_id j l.done _ h

  deliver-done :
      (hs : Dict (List (Handler E Outside P))) (job : Job P) (j : Text) (l : Ledger Outside)
      → l.done j ≡ true
      → (deliver hs job l).1.done j ≡ true
  deliver-done hs job j l h = elim (Bool-cases (l.done job.event_id)) [
    | inl e ↦ rw e h
    | inr e ↦ rw e (perform-done (lookup job.event_name hs) job j l h)
  ]

  deliver-known :
      (hs : Dict (List (Handler E Outside P))) (job : Job P) (l : Ledger Outside)
      → l.done job.event_id ≡ true
      → deliver hs job l ≡ (ok tt, l)
  deliver-known hs job l h = rw h refl

  deliver_all-done :
      (hs : Dict (List (Handler E Outside P))) (jobs : List (Job P)) (j : Text) (l : Ledger Outside)
      → l.done j ≡ true
      → (deliver_all hs jobs l).1.done j ≡ true
  deliver_all-done hs [] j l h = h
  deliver_all-done hs (job ∷ jobs) j l h =
      deliver_all-done hs jobs j (deliver hs job l).1 (deliver-done hs job j l h)

  deliver-ok :
      (hs : Dict (List (Handler E Outside P))) (job : Job P) (l : Ledger Outside)
      (f : Handler E Outside P) (fs : List (Handler E Outside P))
      → lookup job.event_name hs ≡ some (f ∷ fs)
      → (deliver hs job l).0 ≡ ok tt
      → (deliver hs job l).1.done job.event_id ≡ true
  deliver-ok hs job l f fs m h = elim (Bool-cases (l.done job.event_id)) [
    | inl e ↦ rw e e
    | inr e ↦ let h' = rw e at rw m at h in rw e (rw m (settle-ok job.event_id l.done _ h'))
  ]

module _ {Server Outside E V P : Type 0} (redis : Redis Server) (keys : Keyspace redis)
    (json : Json V) (one : V) (x : Text) (written : json.stringify one ≡ ok x) where
  -- Once the delivery of an event with handlers has returned, and whatever else is delivered after it, a
  -- redelivery returns and runs no handler, while Redis is reachable and the mark has not expired.
  pub process_event-once :
      (hs : Dict (List (Handler E Outside P))) (job : Job P) (jobs : List (Job P))
      (w : World Server Outside) (f : Handler E Outside P) (fs : List (Handler E Outside P))
      → lookup job.event_name hs ≡ some (f ∷ fs)
      → (process_event redis json one hs job w).0 ≡ ok tt
      → let later =
          (process_all redis json one hs jobs (process_event redis json one hs job w).1).1 in
        ((process_event redis json one hs job later).0 ≡ ok tt)
        × ((process_event redis json one hs job later).1.outside ≡ later.outside)
  process_event-once hs job jobs w f fs m h =
      let start : Ledger Outside = record {
        done = λ id. keys.there w.server (dedup_prefix ++ id);
        outside = w.outside;
      } in
      let (p, s) =
        process_event-deliver redis keys json one x written hs job w start (refl, λ id. refl) in
      let first = (deliver hs job start).1 in
      let (q, s') =
        process_all-deliver_all redis keys json one x written hs jobs
          (process_event redis json one hs job w).1 first s in
      let last = (deliver_all hs jobs first).1 in
      let done : last.done job.event_id ≡ true =
        deliver_all-done hs jobs job.event_id first (deliver-ok hs job start f fs m (sym p ∙ h)) in
      let later =
        (process_all redis json one hs jobs (process_event redis json one hs job w).1).1 in
      let (r, s'') = process_event-deliver redis keys json one x written hs job later last s' in
      let k = deliver-known hs job last done in
      (r ∙ ap (λ t. t.0) k, s''.0 ∙ ap (λ t. t.1.outside) k ∙ sym s'.0)
