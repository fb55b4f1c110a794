-- ===== src/Tests/Refreshing.antt =====
-- The refresh of tokens by the use case, over a list of sessions in memory.
use enterprise_system.Prelude.{trim}
use enterprise_system.Domain.Identity.{is_uuid_v4}
use enterprise_system.Prelude.{
  ◌≤◌, ◌≡◌, Bool, true, Option, none, some, List, [], ◌∷◌, codes, Text, text_eq, ok, throw, refl,
  if◌then◌else◌,
}
use enterprise_system.Domain.Fault.{active, type_error}
use enterprise_system.Domain.Identity.{UniqueId, from_string}
use enterprise_system.Domain.User.{User}
use enterprise_system.Domain.Port.{UserRepository}
use enterprise_system.Application.RefreshToken.{
  SessionSnapshot, SessionRepository, TokenService, AuthTokens, Params, Moment, new_session,
  new_tokens, refresh_token,
}
use enterprise_system.Application.RefreshToken.Branches.{refresh_token-ok}
use enterprise_system.Tests.Fixtures.{bob_as, bob_id}

abbrev Table : Type 0
Table = List SessionSnapshot

abbrev with_token : Text → Table → Option SessionSnapshot
with_token token [] = none
with_token token (s ∷ ss) =
    let rest = with_token token ss in if text_eq s.refresh_token token then some s else rest

abbrev revoke_where : (SessionSnapshot → Bool) → Table → Table
revoke_where p [] = []
revoke_where p (s ∷ ss) = (if p s then record s { revoked_at = some 9 } else s) ∷ revoke_where p ss

abbrev sessions : SessionRepository Table
sessions = record {
  find_by_refresh_token = with_token;
  create = λ d ss.
      record {
        id = codes "fresh";
        user_id = d.user_id;
        refresh_token = d.refresh_token;
        user_agent = d.user_agent;
        ip_address = d.ip_address;
        expires_at = d.expires_at;
        created_at = 9;
        revoked_at = none;
      }
      ∷ ss;
  revoke = λ id ss. revoke_where (λ s. text_eq s.id id) ss;
  revoke_all_for_user = λ id ss. revoke_where (λ s. text_eq s.user_id id) ss;
}

abbrev bob : User
bob = bob_as active

-- Every id is that of one user.
abbrev users : UserRepository Table
users = record {
  find_by_id = λ id ss. (ok bob, ss);
  find_by_email = λ e ss. (ok bob, ss);
  exists_by_email = λ e ss. (ok true, ss);
  save = λ u ss. (ok u, ss);
  delete = λ id ss. (throw type_error, ss);
}

abbrev tokens : TokenService
tokens = record {
  generate_access_token = λ sub email. sub;
  access_token_ttl = 900;
  refresh_token_ttl = 604800;
}

abbrev params : Params
params = record { refresh_token = codes "old"; user_agent = none; ip_address = none }

abbrev moment : Moment
moment = record { checked_at = 50; issued_at = 51; fresh_token = codes "new" }

abbrev session : SessionSnapshot
session = record {
  id = codes "1";
  user_id = bob_id.value;
  refresh_token = codes "old";
  user_agent = none;
  ip_address = none;
  expires_at = 100;
  created_at = 1;
  revoked_at = none;
}

abbrev granted : AuthTokens
granted = new_tokens sessions users tokens params moment bob

refreshed : (refresh_token sessions users tokens params moment (session ∷ [])).0 ≡ ok (ok granted)
unfolding refresh_token text_eq from_string is_uuid_v4 trim
refreshed = refl

refresh_token-ok_example :
    (s : SessionSnapshot) × (id : UniqueId) × (user : User) × (sessions.find_by_refresh_token
        (codes "old")
        (session ∷ [])
      ≡ some s)
    × (s.revoked_at ≡ none)
    × (50 ≤ s.expires_at)
    × (from_string s.user_id ≡ ok id)
    × ((users.find_by_id id (session ∷ [])).0 ≡ ok user)
    × (user.status ≡ active)
    × (granted ≡ new_tokens sessions users tokens params moment user)
    × ((refresh_token sessions users tokens params moment (session ∷ [])).1
        ≡ sessions.create
            (new_session sessions users tokens params moment s user)
            (sessions.revoke s.id (users.find_by_id id (session ∷ [])).1))
refresh_token-ok_example =
    refresh_token-ok sessions users tokens params moment (session ∷ []) granted refreshed
