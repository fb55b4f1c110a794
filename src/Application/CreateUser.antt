-- ===== src/Application/CreateUser.antt =====
-- `CreateUserUseCase` (src/application/use-cases/create-user.use-case.ts) over the domain service. The unit
-- of work is a parameter; the fresh id and the times are arguments. The decorators are
-- those of Audit and Validation, and the mapping to a DTO that of Mapper.
pub mod Registered
use enterprise_system.Prelude.{ℕ, Text, Except, ok, throw}
use enterprise_system.Prelude.Action.{Action}
use enterprise_system.Domain.Fault.{Fault, user_not_found, email_already_exists, user_suspended}
use enterprise_system.Domain.Identity.{UniqueId}
use enterprise_system.Domain.Email as Email
use enterprise_system.Domain.Password as Password
use enterprise_system.Domain.User.{User, Stamp}
use enterprise_system.Domain.Port.{UserRepository, PasswordHasher}
use enterprise_system.Domain.Service.{World, RegisterParams, register_user}

pub record CreateUserDto : Type 0 where
  pub email : Text
  pub password : Text
  pub first_name : Text
  pub last_name : Text

-- The failures of the result: VALIDATION_ERROR with the message of what was thrown, or the code of a
-- domain exception.
pub data Failure : Type 0 where
  validation_error : Fault → Failure
  domain_failure : Fault → Failure

-- The outer `catch`.
unfoldable pub registered : Except Fault User → Except Fault (Except Failure User)
registered (ok user) = ok (ok user)
registered (throw (email_already_exists e)) = ok (throw (domain_failure (email_already_exists e)))
registered (throw (user_not_found key type)) = ok (throw (domain_failure (user_not_found key type)))
registered (throw (user_suspended id)) = ok (throw (domain_failure (user_suspended id)))
registered (throw e) = throw e

module _ {Store : Type 0} (repository : UserRepository Store) (hasher : PasswordHasher)
    (transact : Action Fault (World Store) User → Action Fault (World Store) User) (id : UniqueId)
    (now : ℕ) (st : Stamp) (dto : CreateUserDto) where
  abbrev pub params : Email.Email → Password.Password → RegisterParams
  params email password = record {
    email = email;
    raw_password = password;
    first_name = dto.first_name;
    last_name = dto.last_name;
  }

  abbrev pub with_values :
      Except Fault Email.Email
      → Except Fault Password.Password
      → Action Fault (World Store) (Except Failure User)
  with_values (throw e) password w = (ok (throw (validation_error e)), w)
  with_values (ok email) (throw e) w = (ok (throw (validation_error e)), w)
  with_values (ok email) (ok password) w =
      let (r, v) = transact (register_user repository hasher id now st (params email password)) w in
      (registered r, v)

  unfoldable pub create_user : Action Fault (World Store) (Except Failure User)
  unfolding registered
  create_user w = with_values (Email.create dto.email) (Password.create dto.password) w
