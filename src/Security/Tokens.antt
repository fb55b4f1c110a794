-- ===== src/Security/Tokens.antt =====
-- `AuthService` (src/security/authentication/auth.service.ts): the access tokens and the refresh tokens
-- that stand in the table of sessions. The database client, the signature of a JWT and bcrypt are
-- parameters; the clock and the random values of a call are arguments.
pub mod Composite
pub mod Revoked
pub mod Rotation
use enterprise_system.Prelude.{
  ℕ, ◌+◌, ◌*◌, Bool, true, false, not, ◌&&◌, Option, none, some, List, [], ◌∷◌, ◌++◌, map,
  get_elem?, take, ltb, ◌==◌, if◌then◌else◌, is_some, Text, codes, text_eq, Except, ok, throw,
}
use enterprise_system.Domain.Fault.{UserStatus, active, status_eq}
use enterprise_system.Security.Access.{RoleRow, UserRow}

pub record Session : Type 0 where
  pub id : Text
  pub user_id : Text
  pub refresh_token : Text
  pub user_agent : Option Text
  pub ip_address : Option Text
  pub expires_at : ℕ
  pub revoked_at : Option ℕ

pub record NewSession : Type 0 where
  pub user_id : Text
  pub refresh_token : Text
  pub user_agent : Option Text
  pub ip_address : Option Text
  pub expires_at : ℕ

-- What is signed as an access token, with the options of the signature.
pub record Claims : Type 0 where
  pub sub : Text
  pub email : Text
  pub roles : List Text
  pub jti : Text
  pub expires_in : ℕ
  pub issuer : Text
  pub audience : Text

pub record TokenPair : Type 0 where
  pub access_token : Text
  pub refresh_token : Text
  pub expires_in : ℕ

pub record Config : Type 0 where
  pub access_token_ttl : ℕ
  pub refresh_token_ttl_days : ℕ
  pub bcrypt_rounds : ℕ
  pub issuer : Text
  pub audience : Text

-- The time at each of the three readings of the clock in a call, and its random values.
pub record Moment : Type 0 where
  pub found_at : ℕ
  pub revoked_at : ℕ
  pub issued_at : ℕ
  pub jti : Text
  pub refresh_value : Text
  pub salt : Text

-- The exceptions that `refreshTokens` throws, by their codes.
pub data Refusal : Type 0 where
  token_invalid refresh_token_revoked user_inactive : Refusal

-- The packages that the service calls: the client's `session.findMany`, `session.create`,
-- `session.update` by the id, `session.updateMany`, `session.deleteMany` and `user.findUnique`, the
-- signature, and bcrypt. A filter is the test of its `where`; the two updates set `revokedAt`.
pub record Platform (W : Type 0) : Type 0 where
  pub find_sessions : (Session → Bool) → W → List Session
  pub create_session : NewSession → W → W
  pub revoke_session : Text → ℕ → W → W
  pub revoke_sessions : (Session → Bool) → ℕ → W → W × ℕ
  pub delete_sessions : (Session → Bool) → W → W × ℕ
  pub find_user : Text → W → Option UserRow
  pub sign : Claims → Text
  pub hash : ℕ → Text → Text → Text
  pub compare : Text → Text → Bool

-- `s.split('.')`
abbrev put_code : ℕ → List Text → List Text
put_code c [] = []
put_code c (p ∷ ps) = if c == b'.' then [] ∷ p ∷ ps else (c ∷ p) ∷ ps

unfoldable pub split_dot : Text → List Text
split_dot [] = [] ∷ []
split_dot (c ∷ s) = put_code c (split_dot s)

-- The user id and the value of a refresh token; an empty piece counts as absent.
abbrev solid : Option Text → Option Text
solid (some (c ∷ s)) = some (c ∷ s)
solid _ = none

abbrev pub both : Option Text → Option Text → Option (Text × Text)
both (some u) (some v) = some (u, v)
both _ _ = none

unfoldable pub token_value : Text → Option Text
unfolding split_dot
token_value token = solid (get_elem? (split_dot token) 1)

unfoldable pub parse_token : Text → Option (Text × Text)
unfolding split_dot token_value
parse_token token = both (solid (get_elem? (split_dot token) 0)) (token_value token)

-- `${userId}.${refreshTokenValue}`
unfoldable pub compose_token : Text → Text → Text
compose_token user_id value = user_id ++ b'.' ∷ value

-- The filters of the queries.
unfoldable pub is_unrevoked : Text → Session → Bool
unfolding text_eq
is_unrevoked user_id s = text_eq s.user_id user_id && not (is_some s.revoked_at)

unfoldable pub is_live : Text → ℕ → Session → Bool
unfolding is_unrevoked
is_live user_id now s = is_unrevoked user_id s && ltb now s.expires_at

unfoldable pub is_stale : ℕ → Session → Bool
is_stale now s = ltb s.expires_at now && is_some s.revoked_at

-- `s?.substring(0, 512)`
abbrev truncated : Option Text → Option Text
truncated none = none
truncated (some s) = some (take 512 s)

module _ {W : Type 0} (platform : Platform W) where
  -- The loop that looks for the session whose hash belongs to the token.
  unfoldable pub first_match : Text → List Session → Option Session
  first_match value [] = none
  first_match value (s ∷ ss) =
      let rest = first_match value ss in
      if platform.compare value s.refresh_token then some s else rest

  module _ (config : Config) where
    abbrev pub new_session : Text → Option Text → Option Text → Moment → NewSession
    new_session user_id user_agent ip_address at = record {
      user_id = user_id;
      refresh_token = platform.hash config.bcrypt_rounds at.salt at.refresh_value;
      user_agent = truncated user_agent;
      ip_address = ip_address;
      expires_at = at.issued_at + config.refresh_token_ttl_days * 86400000;
    }

    unfoldable pub generate_token_pair :
        Text → Text → List Text → Option Text → Option Text → Moment → W → W × TokenPair
    unfolding compose_token
    generate_token_pair user_id email roles user_agent ip_address at w = (
      platform.create_session (new_session user_id user_agent ip_address at) w,
      record {
        access_token = platform.sign (record {
          sub = user_id;
          email = email;
          roles = roles;
          jti = at.jti;
          expires_in = config.access_token_ttl;
          issuer = config.issuer;
          audience = config.audience;
        });
        refresh_token = compose_token user_id at.refresh_value;
        expires_in = config.access_token_ttl;
      },
    )

    abbrev issue :
        Text
        → Option UserRow
        → Option Text
        → Option Text
        → Moment
        → W
        → W × Except Refusal TokenPair
    issue user_id none user_agent ip_address at w = (w, throw user_inactive)
    issue user_id (some user) user_agent ip_address at w =
        if status_eq user.status active
        then (let (w', pair) =
              generate_token_pair user_id user.email (map (λ (r : RoleRow). r.name) user.roles)
                user_agent ip_address at w in
            (w', ok pair))
        else (w, throw user_inactive)

    -- No session matches: every session of the user is revoked. Else the one that matches is revoked,
    -- and the user gets a new pair.
    abbrev rotate :
        Text
        → Option Session
        → Option Text
        → Option Text
        → Moment
        → W
        → W × Except Refusal TokenPair
    rotate user_id none user_agent ip_address at w = (
      (platform.revoke_sessions (is_unrevoked user_id) at.revoked_at w).0,
      throw refresh_token_revoked,
    )
    rotate user_id (some s) user_agent ip_address at w =
        let w' = platform.revoke_session s.id at.revoked_at w in
        issue user_id (platform.find_user user_id w') user_agent ip_address at w'

    abbrev redeem :
        Option (Text × Text) → Option Text → Option Text → Moment → W → W × Except Refusal TokenPair
    redeem none user_agent ip_address at w = (w, throw token_invalid)
    redeem (some (user_id, value)) user_agent ip_address at w =
        rotate user_id (first_match value (platform.find_sessions (is_live user_id at.found_at) w))
          user_agent ip_address at w

    unfoldable pub refresh_tokens :
        Text → Option Text → Option Text → Moment → W → W × Except Refusal TokenPair
    unfolding parse_token first_match generate_token_pair status_eq is_live is_unrevoked
    refresh_tokens token user_agent ip_address at w =
        redeem (parse_token token) user_agent ip_address at w

  unfoldable pub revoke_all_tokens : Text → ℕ → W → W × ℕ
  unfolding is_unrevoked
  revoke_all_tokens user_id now w = platform.revoke_sessions (is_unrevoked user_id) now w

  -- A session that matches is revoked alone; without one, all the sessions of the user are.
  abbrev revoke_one : Text → Option Session → ℕ → W → W
  revoke_one user_id (some s) now w = platform.revoke_session s.id now w
  revoke_one user_id none now w = (revoke_all_tokens user_id now w).0

  abbrev matching : Text → Option Text → W → Option Session
  matching user_id none w = none
  matching user_id (some value) w =
      first_match value (platform.find_sessions (is_unrevoked user_id) w)

  abbrev value_of : Option Text → Option Text
  value_of none = none
  value_of (some token) = token_value token

  unfoldable pub revoke_token : Text → Option Text → ℕ → W → W
  unfolding token_value first_match is_unrevoked revoke_all_tokens
  revoke_token user_id token now w = revoke_one user_id (matching user_id (value_of token) w) now w

  unfoldable pub cleanup_expired_sessions : ℕ → W → W × ℕ
  unfolding is_stale
  cleanup_expired_sessions now w = platform.delete_sessions (is_stale now) w
