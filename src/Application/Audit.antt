-- ===== src/Application/Audit.antt =====
-- The decorator `@Audit` (src/application/decorators/audit.decorator.ts) on a method that changes the state of
-- the program. Values are those of the logger; the entries that were emitted are a list. What is taken from a
-- `Result` by its accessors is an argument of the model, as are the readings of the clock; the one in the catch
-- branch is a third if what follows the method throws. Which entries cannot be written as JSON, and with what
-- error, is a parameter.
pub mod Entries
pub mod Harmless
use enterprise_system.Prelude.{
  ℕ, zero, suc, ◌+◌, ◌/◌, ◌%◌, ltb, ◌-◌, Bool, true, false, Option, none, some, List, [], ◌∷◌, ◌++◌,
  any, if◌then◌else◌, is_some, Text, codes, digits, text_eq, Except, ok, throw, ◌>>=◌,
}
use enterprise_system.Observability.Logger.{
  Value, Fields, Items, nil, cons, nothing, primitive, array, object, end, field, find, redacted,
}

pub record AuditMetadata : Type 0 where
  pub action : Text
  pub resource : Text
  pub include_payload : Bool
  pub include_result : Bool

pub record RequestContext : Type 0 where
  pub user_id : Option Text
  pub ip_address : Option Text
  pub user_agent : Option Text
  pub correlation_id : Option Text

pub record AuditEntry : Type 0 where
  pub action : Text
  pub resource : Text
  pub context : Option RequestContext
  pub duration : Option ℕ
  pub success : Option Bool
  pub error : Option Text
  pub payload : Option Value
  pub result : Option Value

unfoldable pub payload_secrets : List Text
payload_secrets =
    codes "password"
    ∷ codes "passwordHash"
    ∷ codes "token"
    ∷ codes "refreshToken"
    ∷ codes "accessToken"
    ∷ codes "secret"
    ∷ codes "apiKey"
    ∷ []

-- The entries of the payload, with the mark under the names of secrets. Each of the names is looked up in the
-- copy and overwritten in its place.
unfoldable pub hide : Fields → Fields
unfolding any text_eq payload_secrets
hide end = end
hide (field key value fields) =
    field key (if any (text_eq key) payload_secrets then redacted else value) (hide fields)

-- The copy of an array is an object with its indices for names, none of which is the name of a secret.
unfoldable pub indexed : ℕ → Items → Fields
unfolding digits
indexed n nil = end
indexed n (cons value items) = field (digits n n) value (indexed (suc n) items)

-- `sanitizePayload`. It does not look into the values.
unfoldable pub sanitize_payload : Value → Value
unfolding hide indexed
sanitize_payload (object fields) = object (hide fields)
sanitize_payload (array items) = object (indexed 0 items)
sanitize_payload v = v

unfoldable pub allowed : List Text
allowed =
    codes "id"
    ∷ codes "email"
    ∷ codes "status"
    ∷ codes "fullName"
    ∷ codes "userId"
    ∷ codes "roleId"
    ∷ []

-- The entries with the given names, in the order of the names.
unfoldable pub pick : List Text → Fields → Fields
unfolding find
pick [] fields = end
pick (key ∷ keys) fields = elim (find key fields) [
  | none ↦ pick keys fields
  | some value ↦ field key value (pick keys fields)
]

unfoldable pub or_omitted : Fields → Value
or_omitted end = primitive (codes "[omitted]")
or_omitted (field key value fields) = object (field key value fields)

-- An array has none of the names.
unfoldable pub sanitize_value : Value → Value
unfolding pick allowed or_omitted
sanitize_value (object fields) = or_omitted (pick allowed fields)
sanitize_value (array items) = primitive (codes "[omitted]")
sanitize_value v = v

-- What a method returns: a `Result` with its value or the message of its error, another value, or an object
-- whose accessors throw.
pub data Returned : Type 0 where
  succeeded : Value → Returned
  failed : Text → Returned
  plain : Value → Returned
  unreadable : Text → Returned

-- `sanitizeResult`
unfoldable pub sanitize_result : Returned → Except Text Value
unfolding sanitize_value
sanitize_result (succeeded v) = ok (
    object (
      field (codes "isSuccess") (primitive (codes "true"))
        (field (codes "value") (sanitize_value v) end)))
sanitize_result (failed message) = ok (
    object (
      field (codes "isSuccess") (primitive (codes "false"))
        (field (codes "error") (primitive message) end)))
sanitize_result (plain v) = ok (sanitize_value v)
sanitize_result (unreadable message) = throw message

-- The entry before the method runs.
unfoldable pub new_entry : AuditMetadata → Value → Option RequestContext → AuditEntry
unfolding sanitize_payload
new_entry metadata input context = record {
  action = metadata.action;
  resource = metadata.resource;
  context = context;
  duration = none;
  success = none;
  error = none;
  payload = if metadata.include_payload then some (sanitize_payload input) else none;
  result = none;
}

-- The duration, and the success of a method that returned.
unfoldable pub completed : ℕ → AuditEntry → AuditEntry
completed duration entry = record entry { duration = some duration; success = some true }

unfoldable pub with_result : AuditMetadata → Returned → AuditEntry → Except Text AuditEntry
unfolding sanitize_result
with_result metadata returned entry =
    if metadata.include_result
    then (do v ← sanitize_result returned; ok (record entry { result = some v }))
    else ok entry

module _ (unwritable : AuditEntry → Option Text) where
  -- `emitAuditLog`
  unfoldable pub emit_audit_log :
      AuditEntry → List AuditEntry → Except Text (Unit {0}) × List AuditEntry
  emit_audit_log entry log = elim (unwritable entry) [
    | none ↦ (ok tt, log ++ entry ∷ [])
    | some message ↦ (throw message, log)
  ]

  -- `throw error`, after the entry was emitted or not.
  unfoldable pub rethrown :
      Text → Except Text (Unit {0}) × List AuditEntry → Except Text Returned × List AuditEntry
  rethrown message (ok u, log) = (throw message, log)
  rethrown message (throw message', log) = (throw message', log)

  -- The catch branch, with the message of what was thrown, which is thrown again.
  unfoldable pub caught_error :
      ℕ → Text → AuditEntry → List AuditEntry → Except Text Returned × List AuditEntry
  unfolding emit_audit_log rethrown
  caught_error duration message entry log = rethrown message (
      emit_audit_log
        (record entry { duration = some duration; success = some false; error = some message }) log)

  -- `return result`, after the entry was emitted; if it was not, that is caught.
  unfoldable pub returning :
      ℕ
      → Returned
      → AuditEntry
      → Except Text (Unit {0}) × List AuditEntry
      → Except Text Returned × List AuditEntry
  unfolding caught_error
  returning duration returned entry (ok u, log) = (ok returned, log)
  returning duration returned entry (throw message, log) = caught_error duration message entry log

  -- The rest of the try branch, with the entry, or what reading the result threw.
  unfoldable pub emitted :
      ℕ
      → Returned
      → AuditEntry
      → Except Text AuditEntry
      → List AuditEntry
      → Except Text Returned × List AuditEntry
  unfolding emit_audit_log caught_error returning
  emitted duration returned entry (ok e) log = returning duration returned e (emit_audit_log e log)
  emitted duration returned entry (throw message) log = caught_error duration message entry log

  -- What follows the method: the duration at its end, and the one in a catch branch.
  unfoldable pub after_method :
      AuditMetadata
      → ℕ
      → ℕ
      → Except Text Returned
      → AuditEntry
      → List AuditEntry
      → Except Text Returned × List AuditEntry
  unfolding completed with_result emitted caught_error
  after_method metadata ended failed_at (throw message) entry log =
      caught_error ended message entry log
  after_method metadata ended failed_at (ok returned) entry log =
      emitted failed_at returned (completed ended entry)
        (with_result metadata returned (completed ended entry)) log

  module _ {S : Type 0} where
    unfoldable pub audited :
        AuditMetadata
        → (Value → S → Except Text Returned × S)
        → Value
        → Option RequestContext
        → ℕ
        → ℕ
        → ℕ
        → S × List AuditEntry
        → Except Text Returned × (S × List AuditEntry)
    unfolding new_entry after_method
    audited metadata method input context started ended failed_at (s, log) =
        let (r, s') = method input s in
        let (r', log') =
          after_method metadata (ended - started) (failed_at - started) r
            (new_entry metadata input context) log in
        (r', (s', log'))
