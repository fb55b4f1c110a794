-- ===== src/Domain/User.antt =====
-- The user entity (src/domain/entities/user.entity.ts, base.entity.ts). A method takes the user and
-- returns the new one, or what it threw; no method writes before it throws.
pub mod Method
pub mod Lifecycle
pub mod Names
pub mod History
use enterprise_system.Prelude.{
  ℕ, ◌+◌, ◌-◌, Bool, true, false, not, ◌&&◌, List, [], ◌∷◌, ◌++◌, Option, none, some, ltb, ◌==◌,
  length, if◌then◌else◌, Text, trim, Except, ok, throw, ◌>>◌,
}
use enterprise_system.Domain.Fault.{
  UserStatus, active, inactive, suspended, pending_verification, status_eq, NameLabel, first_name,
  last_name, Fault, error, cannot_activate_suspended, already_suspended, email_already_verified,
  cannot_record_login, name_empty, name_too_long,
}
use enterprise_system.Domain.Identity.{UniqueId}
use enterprise_system.Domain.Email.{Email, email_eq}
use enterprise_system.Domain.Password.{Password}
use enterprise_system.Domain.Event.{DomainEvent, user_created, status_changed}

pub record User : Type 0 where
  pub id : UniqueId
  pub created_at : ℕ
  pub updated_at : ℕ
  pub email : Email
  pub password : Password
  pub first_name : Text
  pub last_name : Text
  pub status : UserStatus
  pub email_verified : Bool
  pub last_login_at : Option ℕ
  pub version : ℕ
  pub domain_events : List DomainEvent

-- What one call reads from outside: the clock, each time that it is read, and a random event id.
pub record Stamp : Type 0 where
  pub modified_at : ℕ
  pub occurred_at : ℕ
  pub login_at : ℕ
  pub event_id : Text

-- Throws, or returns nothing.
unfoldable pub validate_name : Text → NameLabel → Except Fault (Unit {0})
validate_name name label =
    if length (trim name) == 0
    then throw (error (name_empty label))
    else if ltb 100 (length (trim name))
    then throw (error (name_too_long label))
    else ok tt

pub record CreateParams : Type 0 where
  pub email : Email
  pub password : Password
  pub first_name : Text
  pub last_name : Text

-- `id` is the fresh id, and `now` the time that the constructor reads.
unfoldable pub create : UniqueId → ℕ → Stamp → CreateParams → Except Fault User
unfolding validate_name
create id now st p = do
  validate_name p.first_name first_name
  validate_name p.last_name last_name
  ok (record {
    id = id;
    created_at = now;
    updated_at = now;
    email = p.email;
    password = p.password;
    first_name = trim p.first_name;
    last_name = trim p.last_name;
    status = pending_verification;
    email_verified = false;
    last_login_at = none;
    version = 1;
    domain_events =
        record {
          event_id = st.event_id;
          occurred_at = st.occurred_at;
          aggregate_id = id.value;
          payload = user_created p.email.value;
        }
        ∷ [];
  })

-- `this._status = s`, the new version, the new time and the event, as `activate`, `suspend` and
-- `deactivate` write them.
unfoldable pub set_status : Stamp → UserStatus → User → User
set_status st s u = record u {
  status = s;
  version = u.version + 1;
  updated_at = st.modified_at;
  domain_events =
      u.domain_events
      ++ record {
        event_id = st.event_id;
        occurred_at = st.occurred_at;
        aggregate_id = u.id.value;
        payload = status_changed u.status s;
      }
        ∷ [];
}

unfoldable pub activate : Stamp → User → Except Fault User
unfolding set_status status_eq
activate st u =
    if status_eq u.status suspended
    then throw (error cannot_activate_suspended)
    else if status_eq u.status active
    then ok u
    else ok (set_status st active u)

unfoldable pub suspend : Stamp → User → Except Fault User
unfolding set_status status_eq
suspend st u =
    if status_eq u.status suspended
    then throw (error already_suspended)
    else ok (set_status st suspended u)

unfoldable pub deactivate : Stamp → User → Except Fault User
unfolding set_status status_eq
deactivate st u = if status_eq u.status inactive then ok u else ok (set_status st inactive u)

unfoldable pub verify_email : Stamp → User → Except Fault User
unfolding set_status status_eq
verify_email st u =
    if u.email_verified
    then throw (error email_already_verified)
    else if status_eq u.status pending_verification
    then ok (record (set_status st active u) { email_verified = true })
    else ok
        (record u { email_verified = true; version = u.version + 1; updated_at = st.modified_at })

unfoldable pub record_login : Stamp → User → Except Fault User
unfolding status_eq
record_login st u =
    if not (status_eq u.status active)
    then throw (error (cannot_record_login u.status))
    else ok (record u {
      last_login_at = some st.login_at;
      version = u.version + 1;
      updated_at = st.modified_at;
    })

unfoldable pub change_email : Stamp → Email → User → Except Fault User
change_email st new_email u =
    if email_eq u.email new_email
    then ok u
    else ok (record u {
      email = new_email;
      email_verified = false;
      status = pending_verification;
      version = u.version + 1;
      updated_at = st.modified_at;
    })

unfoldable pub change_password : Stamp → Password → User → Except Fault User
change_password st new_password u =
    ok (record u { password = new_password; version = u.version + 1; updated_at = st.modified_at })

unfoldable pub update_profile : Stamp → Text → Text → User → Except Fault User
unfolding validate_name
update_profile st first last u = do
  validate_name first first_name
  validate_name last last_name
  ok (record u {
    first_name = trim first;
    last_name = trim last;
    version = u.version + 1;
    updated_at = st.modified_at;
  })

unfoldable pub is_active : User → Bool
unfolding status_eq
is_active u = status_eq u.status active

unfoldable pub is_suspended : User → Bool
unfolding status_eq
is_suspended u = status_eq u.status suspended

unfoldable pub can_login : User → Bool
unfolding is_active
can_login u = is_active u && u.email_verified

-- `this._version - 1`; the version of a user is never 0.
unfoldable pub get_expected_version : User → ℕ
get_expected_version u = u.version - 1

-- The collected events, and the user without them.
unfoldable pub pull_domain_events : User → List DomainEvent × User
pull_domain_events u = (u.domain_events, record u { domain_events = [] })
