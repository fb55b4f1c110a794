-- ===== src/Tests/Requests.antt =====
-- Requests and checks of health with concrete parts.
use enterprise_system.Prelude.{
  ◌≡◌, ◌≢◌, Option, none, some, List, [], ◌∷◌, map, any, refl, Text, codes, text_eq, ok, throw,
}
use enterprise_system.Application.Validation.{
  invalid, Errors, no_errors, add_error, FormattedError, field_path, formatted_constraints,
  format_validation_errors,
}
use enterprise_system.Application.Validation.Paths.{
  dotted, broken, IsNamed, format_validation_errors-broken,
}
use enterprise_system.Domain.Email.{to_lower_case}
use enterprise_system.Observability.Health.{DependencyHealth, degraded, check_readiness}
use enterprise_system.Observability.Health.Worst.{rank, highest, reported, check_readiness-highest}
use enterprise_system.Presentation.LoggingInterceptor.{is_hidden, redact_object}
use enterprise_system.Presentation.LoggingInterceptor.Hidden.{
  plain_secrets, is_hidden-plain_secrets,
}
use enterprise_system.Observability.Logger.{Value, object, field, end, primitive}

abbrev database : DependencyHealth
database = record {
  name = codes "database";
  status = degraded;
  latency_ms = some 900;
  message = none;
  details = none;
}

-- The database is slow, and the check of the cache was rejected.
check_readiness-highest_example :
    rank
      (check_readiness
        (codes "1.0.0")
        0
        5000
        (ok database ∷ throw (some (codes "ECONNREFUSED")) ∷ [])).status
    ≡ highest (map reported (ok database ∷ throw (some (codes "ECONNREFUSED")) ∷ []))
check_readiness-highest_example =
    check_readiness-highest (codes "1.0.0") 0 5000
      (ok database ∷ throw (some (codes "ECONNREFUSED")) ∷ [])

is_hidden-plain_secrets_example :
    is_hidden (codes "accessToken")
    ≡ any (text_eq (to_lower_case (codes "accessToken"))) plain_secrets
is_hidden-plain_secrets_example = is_hidden-plain_secrets (codes "accessToken")

-- A query with two secrets, of which one is hidden.
abbrev query : Text → Text → Value
query token access_token = object (
    field (codes "Token") (primitive token)
      (field (codes "accessToken") (primitive access_token) end))

half_hidden :
    redact_object (query (codes "t1") (codes "t2")) ≡ query (codes "[REDACTED]") (codes "t2")
unfolding redact_object is_hidden
half_hidden = refl

-- The errors of a user with a bad email address and an address without a street.
abbrev messages : Text → Option (List (Text × Text))
messages name = some ((name, codes "bad") ∷ [])

abbrev user_errors : Errors
user_errors = add_error (invalid (codes "email") (messages (codes "isEmail")) no_errors) (
    add_error
      (invalid (codes "address") none
        (add_error (invalid (codes "street") (messages (codes "isString")) no_errors) no_errors))
      no_errors)

IsNamed-user_errors : IsNamed user_errors
unfolding IsNamed
IsNamed-user_errors =
    let email : codes "email" ≢ [] = cc in
    let address : codes "address" ≢ [] = cc in
    let street : codes "street" ≢ [] = cc in ((email, tt), ((address, ((street, tt), tt)), tt))

format_validation_errors-broken_example :
    map (λ (f : FormattedError). f.field) (format_validation_errors user_errors [])
    ≡ map dotted (broken user_errors [])
format_validation_errors-broken_example =
    format_validation_errors-broken user_errors IsNamed-user_errors

fields_of_user :
    map (λ (f : FormattedError). f.field) (format_validation_errors user_errors [])
    ≡ codes "email" ∷ codes "address.street" ∷ []
unfolding format_validation_errors formatted_constraints field_path
fields_of_user = refl
