-- ===== src/Tests/Fixtures.antt =====
-- A user, its stamps and the hashes that the runs share.
use enterprise_system.Prelude.{true, false, none, some, [], ◌∷◌, codes, Text}
use enterprise_system.Domain.Fault.{UserStatus, pending_verification}
use enterprise_system.Domain.Identity.{UniqueId}
use enterprise_system.Domain.Email.{Email}
use enterprise_system.Domain.Password.{Password}
use enterprise_system.Domain.Event.{user_created}
use enterprise_system.Domain.User.{User, Stamp, CreateParams}

abbrev pub bob_id : UniqueId
bob_id = record { value = codes "0f8fad5b-d9cb-469f-a165-70867728950e" }

abbrev pub bob_email : Email
bob_email = record { value = codes "bob@example.com" }

abbrev pub bobs_other_email : Email
bobs_other_email = record { value = codes "bob@example.org" }

abbrev pub bob_hash : Text
bob_hash = codes "$2b$12$abc"

abbrev pub bob_password : Password
bob_password = record { raw_value = []; hashed_value = some bob_hash }

abbrev pub first_stamp : Stamp
first_stamp = record {
  modified_at = 20;
  occurred_at = 21;
  login_at = 22;
  event_id = codes "event 1";
}

abbrev pub next_stamp : Stamp
next_stamp = record {
  modified_at = 30;
  occurred_at = 31;
  login_at = 32;
  event_id = codes "event 2";
}

abbrev pub bob_params : CreateParams
bob_params = record {
  email = bob_email;
  password = bob_password;
  first_name = codes " Bob ";
  last_name = codes "Builder";
}

-- The user as `User.create` makes it.
abbrev pub bob : User
bob = record {
  id = bob_id;
  created_at = 10;
  updated_at = 10;
  email = bob_email;
  password = bob_password;
  first_name = codes "Bob";
  last_name = codes "Builder";
  status = pending_verification;
  email_verified = false;
  last_login_at = none;
  version = 1;
  domain_events =
      record {
        event_id = first_stamp.event_id;
        occurred_at = first_stamp.occurred_at;
        aggregate_id = bob_id.value;
        payload = user_created bob_email.value;
      }
      ∷ [];
}

-- The same user with another status.
abbrev pub bob_as : UserStatus → User
bob_as s = record bob { status = s; email_verified = true }
