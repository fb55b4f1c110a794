-- ===== src/Domain/Result.antt =====
-- `Result` of the domain (src/domain/common/result.ts). A result is made by `ok` or `fail` alone, as the
-- constructor of the class is private. The details of an error and its cause are kept as they are.
pub mod Laws
use enterprise_system.Prelude.{
  Bool, true, false, not, Option, none, some, List, [], ◌∷◌, if◌then◌else◌, Text, codes, Except,
  throw,
}
use enterprise_system.Prelude.Throwing as Throwing

pub data ErrorCode : Type 0 where
  validation_error invalid_email invalid_password : ErrorCode
  invalid_credentials token_expired token_invalid forbidden account_locked : ErrorCode
  too_many_attempts refresh_token_revoked : ErrorCode
  user_not_found user_already_exists user_suspended user_inactive : ErrorCode
  invalid_status_transition : ErrorCode
  role_not_found role_already_assigned : ErrorCode
  not_found concurrency_conflict transaction_failed external_service_error : ErrorCode
  internal_error : ErrorCode

-- The value of a member of the enum.
unfoldable pub code_text : ErrorCode → Text
code_text validation_error = codes "VALIDATION_ERROR"
code_text invalid_email = codes "INVALID_EMAIL"
code_text invalid_password = codes "INVALID_PASSWORD"
code_text invalid_credentials = codes "INVALID_CREDENTIALS"
code_text token_expired = codes "TOKEN_EXPIRED"
code_text token_invalid = codes "TOKEN_INVALID"
code_text forbidden = codes "FORBIDDEN"
code_text account_locked = codes "ACCOUNT_LOCKED"
code_text too_many_attempts = codes "TOO_MANY_ATTEMPTS"
code_text refresh_token_revoked = codes "REFRESH_TOKEN_REVOKED"
code_text user_not_found = codes "USER_NOT_FOUND"
code_text user_already_exists = codes "USER_ALREADY_EXISTS"
code_text user_suspended = codes "USER_SUSPENDED"
code_text user_inactive = codes "USER_INACTIVE"
code_text invalid_status_transition = codes "INVALID_STATUS_TRANSITION"
code_text role_not_found = codes "ROLE_NOT_FOUND"
code_text role_already_assigned = codes "ROLE_ALREADY_ASSIGNED"
code_text not_found = codes "NOT_FOUND"
code_text concurrency_conflict = codes "CONCURRENCY_CONFLICT"
code_text transaction_failed = codes "TRANSACTION_FAILED"
code_text external_service_error = codes "EXTERNAL_SERVICE_ERROR"
code_text internal_error = codes "INTERNAL_ERROR"

-- `Details` and `Cause` are the types of what an error carries along.
pub record DomainError (Details Cause : Type 0) : Type 0 where
  pub code : ErrorCode
  pub message : Text
  pub details : Option Details
  pub cause : Option Cause

unfoldable pub create_error :
    {Details Cause : Type 0}
    → ErrorCode
    → Text
    → Option Details
    → Option Cause
    → DomainError Details Cause
create_error code message details cause = record {
  code = code;
  message = message;
  details = details;
  cause = cause;
}

pub data Result (T E : Type 0) : Type 0 where
  ok : T → Result T E
  fail : E → Result T E

-- What an accessor throws, and what `unwrap` throws.
pub data Thrown (E : Type 0) : Type 0 where
  no_value no_error type_error : Thrown E
  unwrapped : E → Thrown E

module _ {T E : Type 0} where
  unfoldable pub from_nullable : Option T → E → Result T E
  from_nullable none e = fail e
  from_nullable (some v) e = ok v

  unfoldable pub is_ok : Result T E → Bool
  is_ok (ok v) = true
  is_ok (fail e) = false

  unfoldable pub is_err : Result T E → Bool
  unfolding is_ok
  is_err r = not (is_ok r)

  unfoldable pub get_value : Result T E → Except (Thrown E) T
  get_value (ok v) = Throwing.ok v
  get_value (fail e) = throw no_value

  unfoldable pub get_error : Result T E → Except (Thrown E) E
  get_error (ok v) = throw no_error
  get_error (fail e) = Throwing.ok e

  -- `Result.all`, which calls the getter `isErr` of the first result: its value is a Boolean and no function.
  unfoldable pub all : List (Result T E) → Except (Thrown E) (Result (List T) E)
  all [] = Throwing.ok (ok [])
  all (r ∷ rs) = throw type_error

  unfoldable pub unwrap_or : T → Result T E → T
  unwrap_or d (ok v) = v
  unwrap_or d (fail e) = d

  unfoldable pub unwrap : Result T E → Except (Thrown E) T
  unwrap (ok v) = Throwing.ok v
  unwrap (fail e) = throw (unwrapped e)

  unfoldable pub filter : (T → Bool) → E → Result T E → Result T E
  filter p e (ok v) = if p v then ok v else fail e
  filter p e (fail e') = fail e'

module _ {T U E : Type 0} where
  unfoldable pub map : (T → U) → Result T E → Result U E
  map f (ok v) = ok (f v)
  map f (fail e) = fail e

  unfoldable pub flat_map : (T → Result U E) → Result T E → Result U E
  flat_map f (ok v) = f v
  flat_map f (fail e) = fail e

  -- `match`, and `matchAsync` with the promises awaited.
  unfoldable pub match : (T → U) → (E → U) → Result T E → U
  match f g (ok v) = f v
  match f g (fail e) = g e

module _ {T E F : Type 0} where
  unfoldable pub map_error : (E → F) → Result T E → Result T F
  map_error f (ok v) = ok v
  map_error f (fail e) = fail (f e)

-- `tap` and `tapError`: the function changes a state, and the result is the same.
module _ {T E S : Type 0} where
  unfoldable pub tap : (T → S → S) → Result T E → S → Result T E × S
  tap f (ok v) s = (ok v, f v s)
  tap f (fail e) s = (fail e, s)

  unfoldable pub tap_error : (E → S → S) → Result T E → S → Result T E × S
  tap_error f (ok v) s = (ok v, s)
  tap_error f (fail e) s = (fail e, f e s)

-- `Result.try`: what the function throws is an `Error`, its message and itself, after `new Error(String(err))`
-- if it was none.
unfoldable pub try :
    {T Details Cause : Type 0}
    → Except (Text × Cause) T
    → ErrorCode
    → Result T (DomainError Details Cause)
unfolding create_error
try (Throwing.ok v) code = ok v
try (throw (message, cause)) code = fail (create_error code message none (some cause))
