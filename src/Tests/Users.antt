-- ===== src/Tests/Users.antt =====
-- Users and their value objects on concrete values.
use enterprise_system.Prelude.{
  ℕ, ◌%◌, ◌<◌, arith, ◌+◌, ◌++◌, ◌≡◌, true, false, some, refl, trim, text_eq, [], ◌∷◌, codes, ok,
}
use enterprise_system.Regex.{test, Matches}
use enterprise_system.Regex.Decides.{test_iff}
use enterprise_system.Domain.Fault.{active, pending_verification, UserStatus}
use enterprise_system.Domain.Event.{DomainEvent, status_changed}
use enterprise_system.Domain.Identity.{uuid_v4_regex, is_uuid_v4, from_string, generate_uuid_v4}
use enterprise_system.Domain.Identity.Generated.{from_string-generate_uuid_v4}
use enterprise_system.Domain.Email.{Email, email_eq, local_part, domain_part}
use enterprise_system.Domain.Email as Email
use enterprise_system.Domain.User as Entity
use enterprise_system.Domain.User.{User, can_login}
use enterprise_system.Domain.User.Method.{
  verify_email, change_email, call, Reaches, here, then_call, every, keeps_email,
}
use enterprise_system.Domain.User.Lifecycle.{IsSound, create-IsSound}
use enterprise_system.Domain.User.History.{replay, create-replay}
use enterprise_system.Tests.Fixtures.{
  bob, bob_id, bob_email, bobs_other_email, bob_params, first_stamp, next_stamp,
}

created : Entity.create bob_id 10 first_stamp bob_params ≡ ok bob
unfolding Entity.create trim
created = refl

abbrev status_event : UserStatus → UserStatus → DomainEvent
status_event old new = record {
  event_id = next_stamp.event_id;
  occurred_at = next_stamp.occurred_at;
  aggregate_id = bob_id.value;
  payload = status_changed old new;
}

abbrev moved : UserStatus → User → User
moved s u = record u {
  status = s;
  version = u.version + 1;
  updated_at = next_stamp.modified_at;
  domain_events = u.domain_events ++ status_event u.status s ∷ [];
}

abbrev verified_bob : User
verified_bob = record (moved active bob) { email_verified = true }

verified : call verify_email next_stamp bob ≡ ok verified_bob
unfolding call Entity.set_status
verified = refl

history : Reaches keeps_email bob verified_bob
history = then_call verify_email next_stamp here refl verified

long_history : Reaches every bob verified_bob
long_history = then_call verify_email next_stamp here refl verified

accepted : Email.create (codes " Bob@Example.com ") ≡ ok bob_email
unfolding Email.create Email.to_lower_case trim Email.is_email
accepted = refl

-- The id is a UUID of version 4.
bob_id_matches : Matches uuid_v4_regex bob_id.value
unfolding uuid_v4_regex test
bob_id_matches = (test_iff uuid_v4_regex bob_id.value).0 refl

other_email : email_eq bob_email bobs_other_email ≡ false
unfolding email_eq text_eq
other_email = refl

create-IsSound_example : IsSound verified_bob
create-IsSound_example =
    create-IsSound bob_id 10 first_stamp bob_params bob verified_bob created long_history

create-replay_example : replay (some pending_verification) verified_bob.domain_events ≡ some active
create-replay_example =
    create-replay bob_id 10 first_stamp bob_params bob verified_bob created history

verified_replay : replay (some pending_verification) verified_bob.domain_events ≡ some active
unfolding replay
verified_replay = refl

abbrev moved_bob : User
moved_bob = record verified_bob {
  email = bobs_other_email;
  email_verified = false;
  status = pending_verification;
  version = 3;
  updated_at = next_stamp.modified_at;
}

email_changed : call (change_email bobs_other_email) next_stamp verified_bob ≡ ok moved_bob
unfolding call Entity.change_email email_eq text_eq
email_changed = refl

-- The digits 0, 1, 2 and so on, from the start again after 15.
abbrev counted_digits : ℕ → ℕ
counted_digits k = k % 16

small : (k : ℕ) → counted_digits k < 16
small k = omega arith

from_string-generate_uuid_v4_example :
    (is_uuid_v4 (generate_uuid_v4 counted_digits) ≡ true)
    × (from_string (generate_uuid_v4 counted_digits)
        ≡ ok (record { value = generate_uuid_v4 counted_digits }))
from_string-generate_uuid_v4_example = from_string-generate_uuid_v4 counted_digits small

generated : generate_uuid_v4 counted_digits ≡ codes "01234567-89ab-4cde-b012-3456789abcde"
unfolding generate_uuid_v4
generated = refl
