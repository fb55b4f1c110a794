-- ===== src/Domain/Fault.antt =====
-- The user status (src/domain/entities/user.entity.ts) and what the domain throws: the plain errors,
-- one constructor for each message, and the exceptions of src/domain/exceptions.
use enterprise_system.Prelude.{Bool, true, false, List, ◌≡◌, ◌↔◌, arith, Text}

pub data UserStatus : Type 0 where
  active inactive suspended pending_verification : UserStatus

-- `a === b` on statuses
unfoldable pub status_eq : UserStatus → UserStatus → Bool
status_eq active active = true
status_eq inactive inactive = true
status_eq suspended suspended = true
status_eq pending_verification pending_verification = true
status_eq _ _ = false

pub status_eq_iff : (a b : UserStatus) → (status_eq a b ≡ true) ↔ (a ≡ b)
unfolding status_eq
status_eq_iff a b = ground arith

pub data NameLabel : Type 0 where
  first_name last_name : NameLabel

-- The rules that a password breaks, one constructor for each message of `validateStrength`.
pub data PasswordRule : Type 0 where
  too_short too_long no_uppercase no_lowercase no_digit no_special : PasswordRule

pub data Message : Type 0 where
  cannot_activate_suspended : Message
  already_suspended : Message
  email_already_verified : Message
  cannot_record_login : UserStatus → Message
  name_empty : NameLabel → Message
  name_too_long : NameLabel → Message
  role_already_assigned : Text → Message
  session_of_non_active : Message
  session_of_unverified : Message
  session_not_found : Message
  session_already_revoked : Message
  id_empty : Message
  id_invalid : Text → Message
  email_empty : Message
  email_too_long : Message
  email_invalid : Text → Message
  password_empty : Message
  password_weak : List PasswordRule → Message
  hash_empty : Message

pub data IdentifierType : Type 0 where
  by_id by_email : IdentifierType

-- `error` is a plain `Error`, `type_error` what the engine throws at a call of a member that does not
-- exist; the others are the exceptions that the layers above tell apart.
pub data Fault : Type 0 where
  error : Message → Fault
  user_not_found : Text → IdentifierType → Fault
  email_already_exists : Text → Fault
  user_suspended : Text → Fault
  concurrency_conflict : Text → Fault
  type_error : Fault
