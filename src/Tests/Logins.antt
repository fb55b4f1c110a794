-- ===== src/Tests/Logins.antt =====
-- The authentication of a user by the use case, over the tables of Storage.
use enterprise_system.Infrastructure.Repository.{save}
use enterprise_system.Domain.Password.{from_hash}
use enterprise_system.Domain.Identity.{is_uuid_v4}
use enterprise_system.Domain.Identity.{from_string}
use enterprise_system.Infrastructure.Repository.Mapping.{to_domain}
use enterprise_system.Infrastructure.Repository.{find_by_email}
use enterprise_system.Prelude.{◌≡◌, none, [], ◌∷◌, codes, ok, refl, text_eq, trim}
use enterprise_system.Domain.Fault.{UserStatus, active}
use enterprise_system.Domain.Email as Email
use enterprise_system.Domain.Service.{authenticate}
use enterprise_system.Domain.Service.Laws.{Authenticated}
use enterprise_system.Application.RefreshToken.{SessionRepository, TokenService, AuthTokens}
use enterprise_system.Application.Authenticate.{Credentials, Moment, State, authenticate_user}
use enterprise_system.Application.Authenticate.Outcomes.{authenticate_user-Authenticated}
use enterprise_system.Tests.Fixtures.{bob_email, bob_id, first_stamp}
use enterprise_system.Tests.Storage.{Table, repository, hasher, world, logged_bob, row_as}

-- The sessions stand in no table here.
abbrev sessions : SessionRepository Table
sessions = record {
  find_by_refresh_token = λ token t. none;
  create = λ d t. t;
  revoke = λ id t. t;
  revoke_all_for_user = λ id t. t;
}

abbrev tokens : TokenService
tokens = record {
  generate_access_token = λ sub email. sub;
  access_token_ttl = 900;
  refresh_token_ttl = 604800;
}

abbrev moment : Moment
moment = record {
  stamp = first_stamp;
  issued_at = 60;
  fresh_token = codes "new";
  session_id = codes "session";
}

abbrev credentials : Credentials
credentials = record {
  email = codes " Bob@Example.com";
  password = codes "secret";
  user_agent = none;
  ip_address = none;
}

well_formed : Email.create (codes " Bob@Example.com") ≡ ok bob_email
unfolding Email.create Email.to_lower_case trim Email.is_email
well_formed = refl

abbrev tokens_of_bob : AuthTokens
tokens_of_bob = record {
  access_token = bob_id.value;
  refresh_token = codes "new";
  expires_in = 900;
  user = logged_bob;
}

abbrev state_as : UserStatus → State Table
state_as status = record { world = world status; authenticated = [] }

given :
    (authenticate_user repository hasher sessions tokens moment credentials (state_as active)).0
    ≡ ok (ok tokens_of_bob)
unfolding authenticate_user authenticate text_eq Email.create Email.to_lower_case trim
    Email.is_email find_by_email to_domain from_string is_uuid_v4 from_hash save
    Email.from_persistence
given = refl

authenticate_user-Authenticated_example :
    (email : Email.Email) × (Email.create (codes " Bob@Example.com") ≡ ok email)
    × Authenticated repository hasher email (codes "secret") (row_as active ∷ [])
authenticate_user-Authenticated_example =
    authenticate_user-Authenticated repository hasher sessions tokens moment credentials
      (state_as active) tokens_of_bob given
