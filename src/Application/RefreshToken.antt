-- ===== src/Application/RefreshToken.antt =====
-- `RefreshTokenUseCase` (src/application/use-cases/refresh-token.use-case.ts) over the ports for
-- sessions, users and tokens, which share a store. The clock and the new refresh token are arguments; the
-- audit decorator around it is that of Audit.
pub mod Branches
use enterprise_system.Prelude.{
  ℕ, ◌+◌, ◌*◌, Bool, true, false, Option, none, some, ltb, if◌then◌else◌, Text, Except, ok, throw,
  is_some,
}
use enterprise_system.Prelude.Action.{Action, pure, raise, lift}
use enterprise_system.Domain.Fault.{Fault, user_not_found, IdentifierType}
use enterprise_system.Domain.Identity.{UniqueId, from_string}
use enterprise_system.Domain.User.{User, is_active}
use enterprise_system.Domain.Port.{UserRepository}

pub record SessionSnapshot : Type 0 where
  pub id : Text
  pub user_id : Text
  pub refresh_token : Text
  pub user_agent : Option Text
  pub ip_address : Option Text
  pub expires_at : ℕ
  pub created_at : ℕ
  pub revoked_at : Option ℕ

-- What `create` is given.
pub record SessionData : Type 0 where
  pub user_id : Text
  pub refresh_token : Text
  pub user_agent : Option Text
  pub ip_address : Option Text
  pub expires_at : ℕ

-- The methods of the port that the use case calls.
pub record SessionRepository (W : Type 0) : Type 0 where
  pub find_by_refresh_token : Text → W → Option SessionSnapshot
  pub create : SessionData → W → W
  pub revoke : Text → W → W
  pub revoke_all_for_user : Text → W → W

pub record TokenService : Type 0 where
  pub generate_access_token : (sub email : Text) → Text
  pub access_token_ttl : ℕ
  pub refresh_token_ttl : ℕ

pub record AuthTokens : Type 0 where
  pub access_token : Text
  pub refresh_token : Text
  pub expires_in : ℕ
  pub user : User

-- The failures, by their codes.
pub data Failure : Type 0 where
  token_invalid refresh_token_revoked token_expired user_gone user_inactive : Failure

pub record Params : Type 0 where
  pub refresh_token : Text
  pub user_agent : Option Text
  pub ip_address : Option Text

-- The clock when the expiry is checked and when the new session is made, and the new refresh token.
pub record Moment : Type 0 where
  pub checked_at : ℕ
  pub issued_at : ℕ
  pub fresh_token : Text

-- `a ?? b`
abbrev or_else : Option Text → Option Text → Option Text
or_else none b = b
or_else (some a) b = some a

abbrev Reply : Type 0
Reply = Except Failure AuthTokens

module _ {W : Type 0} (sessions : SessionRepository W) (users : UserRepository W)
    (tokens : TokenService) (params : Params) (at : Moment) where
  abbrev pub new_session : SessionSnapshot → User → SessionData
  new_session s user = record {
    user_id = user.id.value;
    refresh_token = at.fresh_token;
    user_agent = or_else params.user_agent s.user_agent;
    ip_address = or_else params.ip_address s.ip_address;
    expires_at = at.issued_at + tokens.refresh_token_ttl * 1000;
  }

  abbrev pub new_tokens : User → AuthTokens
  new_tokens user = record {
    access_token = tokens.generate_access_token user.id.value user.email.value;
    refresh_token = at.fresh_token;
    expires_in = tokens.access_token_ttl;
    user = user;
  }

  -- Steps 5 and 6, for a user who is active.
  unfoldable pub renew : SessionSnapshot → User → Action Fault W (Except Failure AuthTokens)
  unfolding is_active
  renew s user w =
      if is_active user
      then (
        ok (ok (new_tokens user)),
        sessions.create (new_session s user) (sessions.revoke s.id w),
      )
      else (ok (throw user_inactive), w)

  -- What the lookup of the user returned or threw.
  unfoldable pub of_user :
      SessionSnapshot → Except Fault User → Action Fault W (Except Failure AuthTokens)
  unfolding renew
  of_user s (ok user) = renew s user
  of_user s (throw (user_not_found key type)) = pure (throw user_gone)
  of_user s (throw e) = raise e

  abbrev pub lookup_user :
      SessionSnapshot → Except Fault UniqueId → Action Fault W (Except Failure AuthTokens)
  lookup_user s (throw e) w = of_user s (throw e) w
  lookup_user s (ok id) w = let (r, v) = users.find_by_id id w in of_user s r v

  -- Steps 1 to 4, on the session that was found.
  unfoldable pub of_session : Option SessionSnapshot → Action Fault W (Except Failure AuthTokens)
  unfolding of_user
  of_session none w = (ok (throw token_invalid), w)
  of_session (some s) w =
      if is_some s.revoked_at
      then (ok (throw refresh_token_revoked), sessions.revoke_all_for_user s.user_id w)
      else if ltb s.expires_at at.checked_at
      then (ok (throw token_expired), w)
      else lookup_user s (from_string s.user_id) w

  unfoldable pub refresh_token : Action Fault W (Except Failure AuthTokens)
  unfolding of_session
  refresh_token w = of_session (sessions.find_by_refresh_token params.refresh_token w) w
