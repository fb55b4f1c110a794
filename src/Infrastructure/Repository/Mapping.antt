-- ===== src/Infrastructure/Repository/Mapping.antt =====
-- Rows of the table of users, and `toDomain`.
use enterprise_system.Prelude.{ℕ, Bool, Option, [], Text, Except, ok, ◌>>=◌}
use enterprise_system.Domain.Fault.{UserStatus, Fault}
use enterprise_system.Domain.Identity.{from_string}
use enterprise_system.Domain.Email.{from_persistence}
use enterprise_system.Domain.Password.{from_hash}
use enterprise_system.Domain.User.{User}

-- A row of the table of users.
pub record Row : Type 0 where
  pub id : Text
  pub email : Text
  pub password_hash : Text
  pub first_name : Text
  pub last_name : Text
  pub status : UserStatus
  pub email_verified : Bool
  pub last_login_at : Option ℕ
  pub version : ℕ
  pub created_at : ℕ
  pub updated_at : ℕ

-- `User.reconstitute` with the value objects of the row; it raises no event.
unfoldable pub to_domain : Row → Except Fault User
to_domain row = do
  id ← from_string row.id
  password ← from_hash row.password_hash
  ok (record {
    id = id;
    created_at = row.created_at;
    updated_at = row.updated_at;
    email = from_persistence row.email;
    password = password;
    first_name = row.first_name;
    last_name = row.last_name;
    status = row.status;
    email_verified = row.email_verified;
    last_login_at = row.last_login_at;
    version = row.version;
    domain_events = [];
  })
