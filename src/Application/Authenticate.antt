-- ===== src/Application/Authenticate.antt =====
-- `AuthenticateUserUseCase` (src/application/use-cases/authenticate-user.use-case.ts) over the domain
-- service and the ports of RefreshToken. The clock, the refresh token and the random session id are
-- arguments; the audit decorator is that of Audit.
pub mod Outcomes
use enterprise_system.Prelude.{
  ℕ, ◌+◌, ◌*◌, Option, none, some, List, [], ◌∷◌, ◌++◌, Text, Except, ok, throw,
}
use enterprise_system.Prelude.Action.{Action}
use enterprise_system.Domain.Fault.{
  Fault, user_not_found, email_already_exists, user_suspended, IdentifierType,
}
use enterprise_system.Domain.Email as Email
use enterprise_system.Domain.User.{User, Stamp}
use enterprise_system.Domain.Port.{UserRepository, PasswordHasher}
use enterprise_system.Domain.Service.{World, authenticate}
use enterprise_system.Application.RefreshToken.{
  SessionRepository, SessionData, TokenService, AuthTokens,
}

pub record Credentials : Type 0 where
  pub email : Text
  pub password : Text
  pub user_agent : Option Text
  pub ip_address : Option Text

-- `UserAuthenticatedEvent`
pub record UserAuthenticated : Type 0 where
  pub user_id : Text
  pub session_id : Text
  pub ip_address : Option Text
  pub user_agent : Option Text

-- The failures of the result: the code that says nothing about the reason, and that of an exception.
pub data Failure : Type 0 where
  invalid_credentials : Failure
  domain_failure : Fault → Failure

-- What the calls read: the stamp of the domain service, the clock, the refresh token and the session id.
pub record Moment : Type 0 where
  pub stamp : Stamp
  pub issued_at : ℕ
  pub fresh_token : Text
  pub session_id : Text

-- The state of the domain service, and the authentication events that were published.
pub record State (Store : Type 0) : Type 0 where
  pub world : World Store
  pub authenticated : List UserAuthenticated

-- The `catch`: exceptions of the domain become failures, and every other error is thrown again.
unfoldable pub caught : Fault → Except Fault (Except Failure AuthTokens)
caught (user_suspended id) = ok (throw (domain_failure (user_suspended id)))
caught (user_not_found key type) = ok (throw (domain_failure (user_not_found key type)))
caught (email_already_exists e) = ok (throw (domain_failure (email_already_exists e)))
caught e = throw e

module _ {Store : Type 0} (repository : UserRepository Store) (hasher : PasswordHasher)
    (sessions : SessionRepository Store) (tokens : TokenService) (at : Moment)
    (p : Credentials) where
  abbrev session_data : User → SessionData
  session_data user = record {
    user_id = user.id.value;
    refresh_token = at.fresh_token;
    user_agent = p.user_agent;
    ip_address = p.ip_address;
    expires_at = at.issued_at + tokens.refresh_token_ttl * 1000;
  }

  abbrev event : User → UserAuthenticated
  event user = record {
    user_id = user.id.value;
    session_id = at.session_id;
    ip_address = p.ip_address;
    user_agent = p.user_agent;
  }

  -- Steps 3 to 6, and the failures of step 2.
  unfoldable pub answer :
      Except Fault (Option User)
      → State Store
      → Except Fault (Except Failure AuthTokens) × State Store
  unfolding caught
  answer (throw e) s = (caught e, s)
  answer (ok none) s = (ok (throw invalid_credentials), s)
  answer (ok (some user)) s = (
    ok (
        ok (record {
          access_token = tokens.generate_access_token user.id.value user.email.value;
          refresh_token = at.fresh_token;
          expires_in = tokens.access_token_ttl;
          user = user;
        })),
    record {
      world = record s.world { store = sessions.create (session_data user) s.world.store };
      authenticated = s.authenticated ++ event user ∷ [];
    },
  )

  abbrev with_email :
      Except Fault Email.Email
      → State Store
      → Except Fault (Except Failure AuthTokens) × State Store
  with_email (throw e) s = (ok (throw invalid_credentials), s)
  with_email (ok email) s =
      let (r, w) = authenticate repository hasher at.stamp email p.password s.world in
      answer r (record s { world = w })

  unfoldable pub authenticate_user :
      State Store → Except Fault (Except Failure AuthTokens) × State Store
  unfolding answer
  authenticate_user s = with_email (Email.create p.email) s
