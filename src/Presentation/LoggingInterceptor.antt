-- ===== src/Presentation/LoggingInterceptor.antt =====
-- `LoggingInterceptor` (src/presentation/rest/interceptors/logging.interceptor.ts), over the values of the
-- logger. The two readings of the clock are arguments.
pub mod Hidden
use enterprise_system.Prelude.{
  ℕ, ◌-◌, Bool, true, Option, none, some, List, [], ◌∷◌, ◌++◌, any, if◌then◌else◌, Text, codes,
  text_eq, Except, ok, throw,
}
use enterprise_system.Domain.Email.{to_lower_case}
use enterprise_system.Observability.Logger.{
  Value, Items, Fields, nothing, primitive, array, object, nil, cons, end, field, redacted,
}

-- `SENSITIVE_FIELDS` of the interceptor.
unfoldable pub request_secrets : List Text
request_secrets =
    codes "password"
    ∷ codes "passwordHash"
    ∷ codes "password_hash"
    ∷ codes "token"
    ∷ codes "accessToken"
    ∷ codes "access_token"
    ∷ codes "refreshToken"
    ∷ codes "refresh_token"
    ∷ codes "secret"
    ∷ codes "apiKey"
    ∷ codes "api_key"
    ∷ codes "authorization"
    ∷ codes "creditCard"
    ∷ codes "credit_card"
    ∷ codes "cvv"
    ∷ codes "ssn"
    ∷ []

-- `SENSITIVE_FIELDS.has(key.toLowerCase())`
unfoldable pub is_hidden : Text → Bool
unfolding any text_eq to_lower_case request_secrets
is_hidden key = any (text_eq (to_lower_case key)) request_secrets

-- `redactObject`; the indices of an array are no names of secrets.
unfoldable mutual
  pub redact_object : Value → Value
  redact_object nothing = nothing
  redact_object (primitive p) = primitive p
  redact_object (array items) = array (redact_elements items)
  redact_object (object fields) = object (redact_entries fields)

  pub redact_elements : Items → Items
  redact_elements nil = nil
  redact_elements (cons v items) = cons (redact_object v) (redact_elements items)

  pub redact_entries : Fields → Fields
  redact_entries end = end
  redact_entries (field key value fields) =
      let inner = redact_object value in
      field key (if is_hidden key then redacted else inner) (redact_entries fields)

-- What is logged of a request.
pub record RequestLog : Type 0 where
  pub method : Text
  pub path : Text
  pub query : Value
  pub ip : Text
  pub user_agent : Option Text
  pub request_id : Option Text
  pub correlation_id : Option Text
  pub user_id : Option Text

pub data HttpLog : Type 0 where
  request_entry : RequestLog → HttpLog
  response_entry : (log : RequestLog) (status_code duration : ℕ) → HttpLog
  response_error : (log : RequestLog) (status_code : ℕ) (message : Text) (duration : ℕ) → HttpLog

-- What a handler throws, with `error.status ?? 500`.
pub record HandlerError : Type 0 where
  pub status : Option ℕ
  pub message : Text

abbrev pub status_of : Option ℕ → ℕ
status_of none = 500
status_of (some n) = n

-- The second entry of a request, by what its handler gave.
unfoldable pub concluded : {A : Type 0} → RequestLog → ℕ → ℕ → Except HandlerError A → HttpLog
concluded log status_code duration (ok body) = response_entry log status_code duration
concluded log status_code duration (throw e) =
    response_error log (status_of e.status) e.message duration

-- `intercept` of a request that came with a query; the response has its status once the handler has returned.
unfoldable pub intercept :
    {A S : Type 0}
    → RequestLog
    → (S → Except HandlerError A × S)
    → (S → ℕ)
    → ℕ
    → ℕ
    → S × List HttpLog
    → Except HandlerError A × (S × List HttpLog)
unfolding concluded redact_object
intercept request handle status_code started ended (s, logged) =
    let log = record request { query = redact_object request.query } in
    let (r, s') = handle s in
    (r, (s', logged ++ request_entry log ∷ concluded log (status_code s') (ended - started) r ∷ []))
