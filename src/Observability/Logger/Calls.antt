-- ===== src/Observability/Logger/Calls.antt =====
-- That no call of the logger logs a secret in its data.
use enterprise_system.Prelude.{
  Bool, Option, [], ◌∷◌, ◌++◌, any, Text, codes, text_eq, Bool-cases, inl, inr, arith, All,
  All-append,
}
use enterprise_system.Observability.Logger as Log
use enterprise_system.Observability.Logger.{
  Fields, primitive, end, field, is_sensitive, sensitive_fields, Entry, Logger, Message,
}
use enterprise_system.Observability.Logger.Redaction.{
  Clean, CleanFields, spread-Clean, redacted_fields-Clean,
}

-- A call of a logger.
pub data Call : Type 0 where
  set_context child_of : Fields → Call
  log warn debug verbose : Message → Option Text → Call
  error : Message → Option Text → Option Text → Call
  http : Message → Fields → Call
  log_with_meta : Text → Message → Fields → Call

-- What is bound as context holds no secret.
abbrev pub Bound : Call → Type 0
Bound (set_context context) = CleanFields context
Bound (child_of context) = CleanFields context
Bound _ = Unit

module _ (enabled : Text → Bool) (stringify : Fields → Text) where
  abbrev pub run : Call → Logger → Logger
  run (set_context context) l = Log.set_context context l
  run (child_of context) l = (Log.child context l).0
  run (log message context) l = Log.log enabled stringify message context l
  run (warn message context) l = Log.warn enabled stringify message context l
  run (debug message context) l = Log.debug enabled stringify message context l
  run (verbose message context) l = Log.verbose enabled stringify message context l
  run (error message trace context) l = Log.error enabled stringify message trace context l
  run (http message meta) l = Log.http enabled stringify message meta l
  run (log_with_meta level message meta) l =
      Log.log_with_meta enabled stringify level message meta l

  -- Neither the context nor the data of what was logged holds a secret.
  abbrev pub CleanLogger : Logger → Type 0
  CleanLogger l = CleanFields l.context × All (λ (e : Entry). CleanFields e.meta) l.logged

  emit-Clean :
      (l : Logger) (level message : Text) (meta : Fields)
      → CleanLogger l
      → CleanFields meta
      → CleanLogger (record l {
        logged = l.logged ++ record { level = level; message = message; meta = meta } ∷ [];
      })
  emit-Clean l level message meta (c, h) k =
      (c, All-append (λ (e : Entry). CleanFields e.meta) l.logged _ h (k, tt))

  -- The context string is under a key that is no secret.
  context-Clean : (name : Text) → CleanFields (field (codes "context") (primitive name) end)
  unfolding Clean is_sensitive text_eq sensitive_fields any
  context-Clean name = (λ h. absurd (ground arith), tt, tt)

  write-Clean :
      (level : Text) (message : Message) (context : Option Text) (l : Logger)
      → CleanLogger l
      → CleanLogger (Log.write enabled stringify level message context l)
  unfolding Log.write
  write-Clean level message context l (c, h) = elim (Bool-cases (enabled level)) [
    | inl e ↦ rw e (emit-Clean l level _ _ (c, h) (spread-Clean _ l.context (context-Clean _) c))
    | inr e ↦ rw e (c, h)
  ]

  -- As long as the contexts that are bound hold no secret, neither does the data that is logged: a logger whose
  -- context and data hold none has none after any call that does not bind one, at any depth, whatever data the call
  -- is given.
  pub run-Clean : (call : Call) (l : Logger) → Bound call → CleanLogger l → CleanLogger (run call l)
  unfolding Log.set_context Log.child Log.log Log.warn Log.debug Log.verbose Log.error Log.http
      Log.log_with_meta
  run-Clean (set_context context) l b (c, h) = (spread-Clean l.context context c b, h)
  run-Clean (child_of context) l b (c, h) = (spread-Clean l.context context c b, h)
  run-Clean (log message context) l b k = write-Clean _ message context l k
  run-Clean (warn message context) l b k = write-Clean _ message context l k
  run-Clean (debug message context) l b k = write-Clean _ message context l k
  run-Clean (verbose message context) l b k = write-Clean _ message context l k
  run-Clean (error message trace context) l b k =
      emit-Clean l _ _ _ k
        (spread-Clean _ _ (context-Clean _) (redacted_fields-Clean (Log.stack_of trace)))
  run-Clean (http message meta) l b (c, h) =
      emit-Clean l _ _ _ (c, h)
        (spread-Clean _ l.context (spread-Clean _ _ (context-Clean _) (redacted_fields-Clean meta))
          c)
  run-Clean (log_with_meta level message meta) l b (c, h) = elim (Bool-cases (enabled level)) [
    | inl e ↦ rw e (
        emit-Clean l _ _ _ (c, h)
          (spread-Clean _ l.context
            (spread-Clean _ _ (context-Clean _) (redacted_fields-Clean meta)) c))
    | inr e ↦ rw e (c, h)
  ]
