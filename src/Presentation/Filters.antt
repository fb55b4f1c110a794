-- ===== src/Presentation/Filters.antt =====
-- The exception filters: `AllExceptionsFilter` (src/common/filters/all-exceptions.filter.ts),
-- `DomainExceptionFilter` and `HttpExceptionFilter` (src/presentation/rest/filters). A response is its
-- status and the fields of its JSON body; a field that is `undefined` is absent. Codes are texts, as in
-- the exceptions, and none of them is the name of a member of `Object.prototype`.
pub mod Titles
pub mod Statuses
use enterprise_system.Prelude.{
  ℕ, ◌+◌, ◌-◌, Bool, true, false, ◌&&◌, ◌||◌, Option, none, some, List, [], ◌∷◌, ◌++◌, map, ltb,
  leb, ◌==◌, if◌then◌else◌, Text, codes, text_eq,
}
use enterprise_system.Prelude.Dict.{Dict, lookup, insert}

-- The classes of src/domain/exceptions.
pub data DomainException : Type 0 where
  user_not_found : Text → Text → DomainException
  email_already_exists : Text → DomainException
  invalid_password : Text → DomainException
  user_suspended : Text → DomainException
  invariant_violation : Text → DomainException

unfoldable pub code_of : DomainException → Text
code_of (user_not_found identifier type) = codes "USER_NOT_FOUND"
code_of (email_already_exists email) = codes "EMAIL_ALREADY_EXISTS"
code_of (invalid_password reason) = codes "INVALID_PASSWORD"
code_of (user_suspended id) = codes "USER_SUSPENDED"
code_of (invariant_violation invariant) = codes "INVARIANT_VIOLATION"

unfoldable pub message_of : DomainException → Text
message_of (user_not_found identifier type) =
    codes "User not found with " ++ type ++ codes ": " ++ identifier
message_of (email_already_exists email) =
    codes "A user with email \"" ++ email ++ codes "\" already exists."
message_of (invalid_password reason) = codes "Invalid password: " ++ reason
message_of (user_suspended id) =
    codes "User \"" ++ id ++ codes "\" is suspended and cannot perform this action."
message_of (invariant_violation invariant) = codes "Domain invariant violated: " ++ invariant

-- `mapErrorCodeToStatus` of AllExceptionsFilter: its table, and 500 for any other code.
unfoldable pub all_exceptions_table : Dict ℕ
all_exceptions_table =
    (codes "VALIDATION_ERROR", 422)
    ∷ (codes "INVALID_EMAIL", 422)
    ∷ (codes "INVALID_PASSWORD", 422)
    ∷ (codes "INVALID_CREDENTIALS", 401)
    ∷ (codes "TOKEN_EXPIRED", 401)
    ∷ (codes "TOKEN_INVALID", 401)
    ∷ (codes "FORBIDDEN", 403)
    ∷ (codes "ACCOUNT_LOCKED", 423)
    ∷ (codes "TOO_MANY_ATTEMPTS", 429)
    ∷ (codes "REFRESH_TOKEN_REVOKED", 401)
    ∷ (codes "USER_NOT_FOUND", 404)
    ∷ (codes "USER_ALREADY_EXISTS", 409)
    ∷ (codes "USER_SUSPENDED", 403)
    ∷ (codes "USER_INACTIVE", 403)
    ∷ (codes "INVALID_STATUS_TRANSITION", 422)
    ∷ (codes "ROLE_NOT_FOUND", 404)
    ∷ (codes "ROLE_ALREADY_ASSIGNED", 409)
    ∷ (codes "NOT_FOUND", 404)
    ∷ (codes "CONCURRENCY_CONFLICT", 409)
    ∷ (codes "TRANSACTION_FAILED", 500)
    ∷ (codes "EXTERNAL_SERVICE_ERROR", 502)
    ∷ (codes "INTERNAL_ERROR", 500)
    ∷ []

-- `mapErrorCodeToHttpStatus` of DomainExceptionFilter.
unfoldable pub domain_table : Dict ℕ
domain_table =
    (codes "VALIDATION_ERROR", 422)
    ∷ (codes "INVALID_EMAIL", 422)
    ∷ (codes "INVALID_PASSWORD", 422)
    ∷ (codes "USER_NOT_FOUND", 404)
    ∷ (codes "ROLE_NOT_FOUND", 404)
    ∷ (codes "NOT_FOUND", 404)
    ∷ (codes "USER_ALREADY_EXISTS", 409)
    ∷ (codes "ROLE_ALREADY_ASSIGNED", 409)
    ∷ (codes "CONCURRENCY_CONFLICT", 409)
    ∷ (codes "INVALID_CREDENTIALS", 401)
    ∷ (codes "TOKEN_EXPIRED", 401)
    ∷ (codes "TOKEN_INVALID", 401)
    ∷ (codes "REFRESH_TOKEN_REVOKED", 401)
    ∷ (codes "FORBIDDEN", 403)
    ∷ (codes "USER_SUSPENDED", 403)
    ∷ (codes "ACCOUNT_LOCKED", 403)
    ∷ (codes "USER_INACTIVE", 400)
    ∷ (codes "INVALID_STATUS_TRANSITION", 400)
    ∷ (codes "TOO_MANY_ATTEMPTS", 429)
    ∷ (codes "TRANSACTION_FAILED", 500)
    ∷ (codes "EXTERNAL_SERVICE_ERROR", 502)
    ∷ (codes "INTERNAL_ERROR", 500)
    ∷ []

-- `mapping[code] ?? 500`
unfoldable pub status_or_500 : Option ℕ → ℕ
status_or_500 none = 500
status_or_500 (some status) = status

unfoldable pub map_error_code_to_status : Text → ℕ
unfolding status_or_500 lookup all_exceptions_table
map_error_code_to_status code = status_or_500 (lookup code all_exceptions_table)

unfoldable pub map_error_code_to_http_status : Text → ℕ
unfolding status_or_500 lookup domain_table
map_error_code_to_http_status code = status_or_500 (lookup code domain_table)

-- The case of a letter of ASCII, which are those that a code has.
unfoldable pub lower : ℕ → ℕ
lower c = if leb b'A' c && leb c b'Z' then c + 32 else c

unfoldable pub upper : ℕ → ℕ
upper c = if leb b'a' c && leb c b'z' then c - 32 else c

-- `code.split('_')`
unfoldable pub split : Text → List Text
split [] = [] ∷ []
split (c ∷ s) = elim (split s) [
  | [] ↦ []
  | w ∷ ws ↦ if c == b'_' then [] ∷ w ∷ ws else (c ∷ w) ∷ ws
]

-- `word.charAt(0) + word.slice(1).toLowerCase()`
unfoldable pub capitalize : Text → Text
unfolding lower
capitalize [] = []
capitalize (c ∷ w) = c ∷ map lower w

-- `words.join(' ')`
unfoldable pub join : List Text → Text
join [] = []
join (w ∷ []) = w
join (w ∷ v ∷ ws) = w ++ b' ' ∷ join (v ∷ ws)

-- `humanizeErrorCode`
unfoldable pub humanize_error_code : Text → Text
unfolding split capitalize join
humanize_error_code code = join (map capitalize (split code))

unfoldable pub is_word : ℕ → Bool
is_word c =
    (leb b'a' c && leb c b'z')
    || (leb b'A' c && leb c b'Z')
    || (leb b'0' c && leb c b'9')
    || c == b'_'

-- `s.replace(/\b\w/g, upper)`, where the flag says that the code unit before is one of a word.
unfoldable pub upper_first : Bool → Text → Text
unfolding is_word upper
upper_first after_word [] = []
upper_first true (c ∷ s) = c ∷ upper_first (is_word c) s
upper_first false (c ∷ s) = (if is_word c then upper c else c) ∷ upper_first (is_word c) s

-- `getHumanReadableTitle`
unfoldable pub get_human_readable_title : Text → Text
unfolding lower upper_first
get_human_readable_title code =
    upper_first false (map (λ c. if c == b'_' then b' ' else c) (map lower code))

-- A value of the body of a response; `other` is one that the filters hand on.
pub data Value (J : Type 0) : Type 0 where
  text : Text → Value J
  number : ℕ → Value J
  object : Dict Text → Value J
  other : J → Value J

-- The body of an `HttpException`.
pub data HttpBody (J : Type 0) : Type 0 where
  line : Text → HttpBody J
  fields : Dict (Value J) → HttpBody J

-- What a filter catches. `validation` is a non-empty array whose first item has the members of an error of
-- class-validator; `thrown` is any other `Error` with its message, and `value` what is no `Error`, as
-- `String` writes it.
pub data Exception (J : Type 0) : Type 0 where
  domain : DomainException → Exception J
  http : ℕ → HttpBody J → Exception J
  validation : J → Exception J
  thrown : Text → Exception J
  value : Text → Exception J

pub record Response (J : Type 0) : Type 0 where
  pub status : ℕ
  pub json : Dict (Value J)

-- What the filter reads of the request and of the process, and the fresh id of an error.
pub record Context : Type 0 where
  pub header_request_id : Option Text
  pub context_request_id : Option Text
  pub url : Text
  pub production : Bool
  pub error_id : Text

-- `a || b`
unfoldable pub or_text : Option Text → Text → Text
or_text none d = d
or_text (some []) d = d
or_text (some (c ∷ s)) d = c ∷ s

unfoldable pub request_id : Context → Text
unfolding or_text
request_id x = or_text x.header_request_id (or_text x.context_request_id (codes "unknown"))

module _ {J : Type 0} where
  unfoldable pub domain_response : Context → DomainException → Response J
  unfolding map_error_code_to_status humanize_error_code code_of message_of request_id
  domain_response x e =
      let status = map_error_code_to_status (code_of e) in
      record {
        status = status;
        json =
            (codes "type", text (codes "https://enterprise.system/errors/" ++ code_of e))
            ∷ (codes "title", text (humanize_error_code (code_of e)))
            ∷ (codes "status", number status)
            ∷ (codes "detail", text (message_of e))
            ∷ (codes "code", text (code_of e))
            ∷ (codes "instance", text x.url)
            ∷ (codes "requestId", text (request_id x))
            ∷ [];
      }

  -- `status_name` and `show` are `HttpStatus[status]` and the digits of a status.
  unfoldable pub http_response :
      (ℕ → Option Text) → (ℕ → Text) → Context → ℕ → HttpBody J → Response J
  unfolding request_id or_text insert
  http_response status_name show x status (fields body) = record {
    status = status;
    json =
        insert (codes "requestId") (text (request_id x))
          (insert (codes "instance") (text x.url) body);
  }
  http_response status_name show x status (line detail) = record {
    status = status;
    json =
        (codes "type", text (codes "https://enterprise.system/errors/http-" ++ show status))
        ∷ (codes "title", text (or_text (status_name status) (codes "Error")))
        ∷ (codes "status", number status)
        ∷ (codes "detail", text detail)
        ∷ (codes "instance", text x.url)
        ∷ (codes "requestId", text (request_id x))
        ∷ [];
  }

  unfoldable pub validation_response : Context → J → Response J
  unfolding request_id
  validation_response x errors = record {
    status = 422;
    json =
        (codes "type", text (codes "https://enterprise.system/errors/validation-error"))
        ∷ (codes "title", text (codes "Validation Failed"))
        ∷ (codes "status", number 422)
        ∷ (
          codes "detail",
          text (codes "Input validation failed. Check the errors field for details."),
        )
        ∷ (codes "instance", text x.url)
        ∷ (codes "requestId", text (request_id x))
        ∷ (codes "errors", other errors)
        ∷ [];
  }

  unfoldable pub unknown_response : Context → Text → Response J
  unfolding request_id
  unknown_response x message = record {
    status = 500;
    json =
        (codes "type", text (codes "https://enterprise.system/errors/internal"))
        ∷ (codes "title", text (codes "Internal Server Error"))
        ∷ (codes "status", number 500)
        ∷ (codes "detail", text (codes "An unexpected error occurred. Please try again later."))
        ∷ (codes "instance", text x.url)
        ∷ (codes "requestId", text (request_id x))
        ∷ (if x.production
            then []
            else (
              codes "debug",
              object ((codes "errorId", x.error_id) ∷ (codes "message", message) ∷ []),
            )
              ∷ []);
  }

  -- `AllExceptionsFilter.catch`
  unfoldable pub catch_all : (ℕ → Option Text) → (ℕ → Text) → Context → Exception J → Response J
  unfolding domain_response http_response validation_response unknown_response
  catch_all status_name show x (domain e) = domain_response x e
  catch_all status_name show x (http status body) = http_response status_name show x status body
  catch_all status_name show x (validation errors) = validation_response x errors
  catch_all status_name show x (thrown message) = unknown_response x message
  catch_all status_name show x (value written) = unknown_response x written
