-- ===== src/Infrastructure/Repository.antt =====
-- The user repository (src/infrastructure/database/repositories/user.repository.impl.ts) over the
-- database client, which is a parameter.
pub mod Mapping
pub mod Concurrency
pub mod Events
pub use Mapping.{Row}
unfoldable pub use Mapping.{to_domain}
use enterprise_system.Prelude.{
  ℕ, ◌+◌, ◌<◌, ◌≤◌, Bool, true, false, ◌≡◌, ◌≢◌, List, [], ◌∷◌, Option, none, some, ltb, any,
  if◌then◌else◌, Text, codes, text_eq, Except, ok, throw,
}
use enterprise_system.Prelude.Action.{Action, pure, raise, lift, ◌>>=◌, ◌>>◌}
use enterprise_system.Domain.Fault.{
  UserStatus, IdentifierType, Fault, user_not_found, by_id, by_email, email_already_exists,
  concurrency_conflict, type_error,
}
use enterprise_system.Domain.Identity.{UniqueId, from_string}
use enterprise_system.Domain.Email.{Email, from_persistence}
use enterprise_system.Domain.Password.{Password, from_hash}
use enterprise_system.Domain.User.{User, get_expected_version}
use enterprise_system.Domain.Port.{UserRepository}

-- What `create` and `update` hand to the client. A hash that is absent is left as it is.
pub record RowData : Type 0 where
  pub id : Text
  pub email : Text
  pub password_hash : Option Text
  pub first_name : Text
  pub last_name : Text
  pub status : UserStatus
  pub email_verified : Bool
  pub last_login_at : Option ℕ
  pub version : ℕ

-- The errors of the client: P2002 with the fields that it names, P2025, and any other.
pub data DbError : Type 0 where
  unique_violation : List Text → DbError
  record_not_found : DbError
  other : DbError

-- The calls of the database client that the repository makes. `update` names the row by its id and
-- version.
pub record Client (Store : Type 0) : Type 0 where
  pub find_by_id : Text → Action DbError Store (Option Row)
  pub find_by_email : Text → Action DbError Store (Option Row)
  pub count_by_email : Text → Action DbError Store ℕ
  pub update : Text → ℕ → RowData → Action DbError Store Row
  pub create : RowData → Action DbError Store Row
  pub delete : Text → Action DbError Store Row

-- What a `catch` receives: an error of the client or one of the code.
pub data Caught : Type 0 where
  db : DbError → Caught
  fault : Fault → Caught

unfoldable pub as_fault : Except Fault User → Except Caught User
as_fault (ok u) = ok u
as_fault (throw e) = throw (fault e)

-- The row that a lookup returned, as a user.
load : Text → IdentifierType → Except DbError (Option Row) → Except Caught User
unfolding as_fault
load key type (throw e) = throw (db e)
load key type (ok none) = throw (fault (user_not_found key type))
load key type (ok (some row)) = as_fault (to_domain row)

-- The row that a write returned, as a user.
unfoldable pub loaded : Except DbError Row → Except Caught User
unfolding as_fault
loaded (throw e) = throw (db e)
loaded (ok row) = as_fault (to_domain row)

-- The `catch` of the lookups. `PrismaService.transformError` does not exist.
rescue : Except Caught User → Except Fault User
rescue (ok u) = ok u
rescue (throw (fault (user_not_found key type))) = throw (user_not_found key type)
rescue (throw e) = throw type_error

-- The `catch` of `save`.
unfoldable pub rescue_save : User → Except Caught User → Except Fault User
rescue_save user (ok u) = ok u
rescue_save user (throw (db (unique_violation target))) =
    if any (text_eq (codes "email")) target
    then throw (email_already_exists user.email.value)
    else throw type_error
rescue_save user (throw (db record_not_found)) = throw (concurrency_conflict user.id.value)
rescue_save user (throw e) = throw type_error

abbrev pub row_data : User → Option Text → RowData
row_data user hash = record {
  id = user.id.value;
  email = user.email.value;
  password_hash = hash;
  first_name = user.first_name;
  last_name = user.last_name;
  status = user.status;
  email_verified = user.email_verified;
  last_login_at = user.last_login_at;
  version = user.version;
}

-- `hash ?? ''`
abbrev or_blank : Option Text → Text
or_blank none = []
or_blank (some h) = h

module _ {Store : Type 0} (client : Client Store) where
  unfoldable pub find_by_id : UniqueId → Action Fault Store User
  unfolding load rescue
  find_by_id id s = let (r, t) = client.find_by_id id.value s in (rescue (load id.value by_id r), t)

  unfoldable pub find_by_email : Email → Action Fault Store User
  unfolding load rescue
  find_by_email email s =
      let (r, t) = client.find_by_email email.value s in (rescue (load email.value by_email r), t)

  unfoldable pub exists_by_email : Email → Action Fault Store Bool
  exists_by_email email s =
      let (r, t) = client.count_by_email email.value s in
      (elim r [ ok count ↦ ok (ltb 0 count) | throw e ↦ throw type_error ], t)

  -- The update names the row by the version that the user had before its change.
  update_row : User → Action Fault Store User
  unfolding loaded rescue_save get_expected_version
  update_row user s =
      let (r, t) =
        client.update user.id.value (get_expected_version user)
          (row_data user user.password.hashed_value) s in
      (rescue_save user (loaded r), t)

  create_row : User → Action Fault Store User
  unfolding loaded rescue_save
  create_row user s =
      let (r, t) = client.create (row_data user (some (or_blank user.password.hashed_value))) s in
      (rescue_save user (loaded r), t)

  -- After the lookup: a failure, no row, or a row.
  write : User → Except DbError (Option Row) → Action Fault Store User
  unfolding update_row create_row
  write user (throw e) = lift (rescue_save user (throw (db e)))
  write user (ok none) = create_row user
  write user (ok (some row)) = update_row user

  unfoldable pub save : User → Action Fault Store User
  unfolding write
  save user s = let (r, t) = client.find_by_id user.id.value s in write user r t

  unfoldable pub delete : UniqueId → Action Fault Store (Unit {0})
  delete id s =
      let (r, t) = client.delete id.value s in
      (elim r [ ok row ↦ ok tt | throw e ↦ throw type_error ], t)

  -- The implementation of the port.
  abbrev pub user_repository : UserRepository Store
  user_repository = record {
    find_by_id = find_by_id;
    find_by_email = find_by_email;
    exists_by_email = exists_by_email;
    save = save;
    delete = delete;
  }
