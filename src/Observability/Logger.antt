-- ===== src/Observability/Logger.antt =====
-- `LoggerService` (src/observability/logging/logger.service.ts). A value is what `typeof` and `Array.isArray`
-- tell apart, an object the list of its entries. What is handed to winston is a list of entries, and whether
-- a level is enabled is a parameter.
pub mod Redaction
pub mod Calls
use enterprise_system.Prelude.{
  Bool, true, false, Option, none, some, List, [], ◌∷◌, ◌++◌, any, if◌then◌else◌, Text, codes,
  text_eq,
}

mutual
  pub data Value : Type 0 where
    nothing : Value
    primitive : Text → Value
    array : Items → Value
    object : Fields → Value

  pub data Items : Type 0 where
    nil : Items
    cons : Value → Items → Items

  pub data Fields : Type 0 where
    end : Fields
    field : Text → Value → Fields → Fields

-- `SENSITIVE_FIELDS`
unfoldable pub sensitive_fields : List Text
sensitive_fields =
    codes "password"
    ∷ codes "passwordHash"
    ∷ codes "password_hash"
    ∷ codes "token"
    ∷ codes "accessToken"
    ∷ codes "access_token"
    ∷ codes "refreshToken"
    ∷ codes "refresh_token"
    ∷ codes "secret"
    ∷ codes "apiKey"
    ∷ codes "api_key"
    ∷ codes "authorization"
    ∷ codes "creditCard"
    ∷ codes "credit_card"
    ∷ codes "ssn"
    ∷ codes "cvv"
    ∷ codes "pin"
    ∷ []

unfoldable pub is_sensitive : Text → Bool
unfolding any text_eq sensitive_fields
is_sensitive key = any (text_eq key) sensitive_fields

abbrev pub redacted : Value
redacted = primitive (codes "[REDACTED]")

unfoldable mutual
  pub redact : Value → Value
  redact nothing = nothing
  redact (primitive p) = primitive p
  redact (array items) = array (redact_items items)
  redact (object fields) = object (redact_fields fields)

  pub redact_items : Items → Items
  redact_items nil = nil
  redact_items (cons v items) = cons (redact v) (redact_items items)

  pub redact_fields : Fields → Fields
  redact_fields end = end
  redact_fields (field key value fields) =
      let inner = redact value in
      field key (if is_sensitive key then redacted else inner) (redact_fields fields)

-- `{ ...a, [key]: value }`: a key that is there keeps its place.
unfoldable pub put : Text → Value → Fields → Fields
unfolding text_eq
put key value end = field key value end
put key value (field k v fields) =
    let rest = put key value fields in
    if text_eq k key then field k value fields else field k v rest

-- `{ ...a, ...b }`
unfoldable pub spread : Fields → Fields → Fields
unfolding put
spread a end = a
spread a (field key value fields) = spread (put key value a) fields

unfoldable pub find : Text → Fields → Option Value
unfolding text_eq
find key end = none
find key (field k v fields) = let rest = find key fields in if text_eq k key then some v else rest

-- A message, or a supplier, which gives a text or a record that is written as JSON.
pub data Message : Type 0 where
  line : Text → Message
  supplied : Text → Message
  supplied_record : Fields → Message

-- What winston is called with.
pub record Entry : Type 0 where
  pub level : Text
  pub message : Text
  pub meta : Fields

-- The context of the logger, and what was logged.
pub record Logger : Type 0 where
  pub context : Fields
  pub logged : List Entry

-- `{ context: …, … }`
abbrev context_field : Text → Fields
context_field name = field (codes "context") (primitive name) end

unfoldable pub set_context : Fields → Logger → Logger
unfolding spread
set_context context l = record l { context = spread l.context context }

-- The context of `child`, whose winston logger has the redacted additions as its defaults.
unfoldable pub child : Fields → Logger → Logger × Fields
unfolding spread redact_fields
child context l = (record l { context = spread l.context context }, redact_fields context)

-- `getContextString`: an id that is not empty.
unfoldable pub get_context_string : Logger → Text
unfolding find
get_context_string l = elim (find (codes "requestId") l.context) [
  | some (primitive (c ∷ id)) ↦ codes "req:" ++ c ∷ id
  | _ ↦ codes "application"
]

-- `context || this.getContextString()`
unfoldable pub context_or : Option Text → Logger → Text
unfolding get_context_string
context_or none l = get_context_string l
context_or (some []) l = get_context_string l
context_or (some (c ∷ context)) l = c ∷ context

-- The stack, if there is one that is not empty.
unfoldable pub stack_of : Option Text → Fields
stack_of none = end
stack_of (some []) = end
stack_of (some (c ∷ trace)) = field (codes "stack") (primitive (c ∷ trace)) end

module _ (enabled : Text → Bool) (stringify : Fields → Text) where
  unfoldable pub resolve_message : Message → Text
  resolve_message (line text) = text
  resolve_message (supplied text) = text
  resolve_message (supplied_record fields) = stringify fields

  abbrev emit : Text → Text → Fields → Logger → Logger
  emit level message meta l = record l {
    logged = l.logged ++ record { level = level; message = message; meta = meta } ∷ [];
  }

  unfoldable pub write : Text → Message → Option Text → Logger → Logger
  unfolding resolve_message context_or spread
  write level message context l =
      if enabled level
      then emit level (resolve_message message)
          (spread (context_field (context_or context l)) l.context) l
      else l

  unfoldable pub log : Message → Option Text → Logger → Logger
  unfolding write
  log = write (codes "info")

  unfoldable pub warn : Message → Option Text → Logger → Logger
  unfolding write
  warn = write (codes "warn")

  unfoldable pub debug : Message → Option Text → Logger → Logger
  unfolding write
  debug = write (codes "debug")

  unfoldable pub verbose : Message → Option Text → Logger → Logger
  unfolding write
  verbose = write (codes "debug")

  -- `error` does not ask whether the level is enabled.
  unfoldable pub error : Message → Option Text → Option Text → Logger → Logger
  unfolding resolve_message context_or spread stack_of redact_fields
  error message trace context l =
      emit (codes "error") (resolve_message message)
        (spread (context_field (context_or context l)) (redact_fields (stack_of trace))) l

  unfoldable pub http : Message → Fields → Logger → Logger
  unfolding resolve_message get_context_string spread redact_fields
  http message meta l =
      emit (codes "http") (resolve_message message)
        (spread (spread (context_field (get_context_string l)) (redact_fields meta)) l.context) l

  unfoldable pub log_with_meta : Text → Message → Fields → Logger → Logger
  unfolding resolve_message get_context_string spread redact_fields
  log_with_meta level message meta l =
      if enabled level
      then emit level (resolve_message message)
          (spread (spread (context_field (get_context_string l)) (redact_fields meta)) l.context) l
      else l
