-- ===== src/Presentation/HttpFilter.antt =====
-- `HttpExceptionFilter` (src/presentation/rest/filters/http-exception.filter.ts), over the bodies of the other
-- filters, in which no field is null. The time and the id of the request are arguments; what is logged is not
-- modelled.
pub mod Tables
use enterprise_system.Prelude.{
  ℕ, Bool, true, false, Option, none, some, List, [], ◌∷◌, ◌++◌, ltb, ◌==◌, if◌then◌else◌, Text,
  codes,
}
use enterprise_system.Prelude.Dict.{lookup}
use enterprise_system.Presentation.Filters.{
  Value, text, number, object, other, HttpBody, line, fields,
}

-- `map[status]`
unfoldable pub at_status : ℕ → List (ℕ × Text) → Option Text
at_status status [] = none
at_status status ((s, t) ∷ table) =
    let rest = at_status status table in if s == status then some t else rest

unfoldable pub type_map : List (ℕ × Text)
type_map =
    (400, codes "bad-request")
    ∷ (401, codes "unauthorized")
    ∷ (403, codes "forbidden")
    ∷ (404, codes "not-found")
    ∷ (405, codes "method-not-allowed")
    ∷ (408, codes "timeout")
    ∷ (409, codes "conflict")
    ∷ (422, codes "validation")
    ∷ (429, codes "rate-limited")
    ∷ (500, codes "internal")
    ∷ (502, codes "bad-gateway")
    ∷ (503, codes "service-unavailable")
    ∷ []

unfoldable pub title_map : List (ℕ × Text)
title_map =
    (400, codes "Bad Request")
    ∷ (401, codes "Unauthorized")
    ∷ (403, codes "Forbidden")
    ∷ (404, codes "Not Found")
    ∷ (405, codes "Method Not Allowed")
    ∷ (408, codes "Request Timeout")
    ∷ (409, codes "Conflict")
    ∷ (422, codes "Unprocessable Entity")
    ∷ (429, codes "Too Many Requests")
    ∷ (500, codes "Internal Server Error")
    ∷ (502, codes "Bad Gateway")
    ∷ (503, codes "Service Unavailable")
    ∷ []

-- `a ?? d`
abbrev pub default : {A : Type 0} → A → Option A → A
default d none = d
default d (some a) = a

-- The addresses in the map have one beginning.
unfoldable pub get_error_type : ℕ → Text
unfolding at_status type_map
get_error_type status =
    codes "https://enterprise.system/errors/"
    ++ default (codes "unknown") (at_status status type_map)

unfoldable pub get_error_title : ℕ → Text
unfolding at_status title_map
get_error_title status = default (codes "Error") (at_status status title_map)

pub record ProblemDetails (J : Type 0) : Type 0 where
  pub type : Value J
  pub title : Value J
  pub status : ℕ
  pub instance_url : Text
  pub timestamp : Text
  pub request_id : Option Text
  pub detail : Option (Value J)
  pub code : Option (Value J)
  pub errors : Option (Value J)

module _ {J : Type 0} where
  -- `a ?? b`
  abbrev pub or_field : Option (Value J) → Option (Value J) → Option (Value J)
  or_field none b = b
  or_field (some a) b = some a

  -- `if (resp.retryAfter)`: 0 and the empty text do not count.
  unfoldable pub retry_after : Option (Value J) → Option (Value J)
  retry_after none = none
  retry_after (some (text [])) = none
  retry_after (some (text (c ∷ s))) = some (text (c ∷ s))
  retry_after (some (number n)) = if ltb 0 n then some (number n) else none
  retry_after (some (object o)) = some (object o)
  retry_after (some (other j)) = some (other j)

  -- The problem before the body of the exception is looked at.
  abbrev pub blank :
      (status : ℕ) (url timestamp : Text) (request_id : Option Text) → ProblemDetails J
  blank status url timestamp request_id = record {
    type = text (get_error_type status);
    title = text (get_error_title status);
    status = status;
    instance_url = url;
    timestamp = timestamp;
    request_id = request_id;
    detail = none;
    code = none;
    errors = none;
  }

  -- `catch`: the body of the response, whose status is that of the exception, and its header Retry-After.
  unfoldable pub catch_http :
      (url timestamp : Text) (request_id : Option Text)
      → ℕ
      → HttpBody J
      → ProblemDetails J × Option (Value J)
  unfolding get_error_type get_error_title retry_after lookup
  catch_http url timestamp request_id status (line detail) =
      (record (blank status url timestamp request_id) { detail = some (text detail) }, none)
  catch_http url timestamp request_id status (fields body) = (
    record (blank status url timestamp request_id) {
      type = default (text (get_error_type status)) (lookup (codes "type") body);
      title = default (text (get_error_title status)) (lookup (codes "title") body);
      detail = or_field (lookup (codes "detail") body) (lookup (codes "message") body);
      code = lookup (codes "code") body;
      errors = lookup (codes "errors") body;
    },
    retry_after (lookup (codes "retryAfter") body),
  )
