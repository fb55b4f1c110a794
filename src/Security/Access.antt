-- ===== src/Security/Access.antt =====
-- The guards of authentication and authorization (src/security/authentication,
-- src/security/authorization). What the decorators put on the route, and what Passport and the database
-- give, are arguments.
pub mod Laws
use enterprise_system.Prelude.{
  ℕ, Bool, true, false, not, ◌&&◌, ◌||◌, Option, none, some, List, [], ◌∷◌, ◌++◌, map, any, filter,
  length, ltb, is_some, if◌then◌else◌, Text, codes, text_eq, Except, ok, throw,
}
use enterprise_system.Domain.Fault.{UserStatus, active, status_eq}

pub record AuthenticatedUser : Type 0 where
  pub id : Text
  pub email : Text
  pub roles : List Text
  pub permissions : List Text

-- The codes of the exceptions, with what their bodies carry.
pub data Denial : Type 0 where
  invalid_credentials : Denial
  token_expired : Denial
  token_invalid : Denial
  user_not_found : Denial
  user_inactive : UserStatus → Denial
  forbidden_roles : (required held : List Text) → Denial
  forbidden_permissions : (required missing : List Text) → Denial

-- `xs.includes(x)`
unfoldable pub includes : Text → List Text → Bool
unfolding any text_eq
includes x xs = any (λ y. text_eq y x) xs

-- `RolesGuard.canActivate`; the roles that the route requires may be absent.
unfoldable pub roles_guard :
    Option (List Text) → Option AuthenticatedUser → Except Denial (Unit {0})
unfolding any includes
roles_guard none user = ok tt
roles_guard (some []) user = ok tt
roles_guard (some (r ∷ rs)) none = throw invalid_credentials
roles_guard (some (r ∷ rs)) (some user) =
    if any (λ role. includes role user.roles) (r ∷ rs)
    then ok tt
    else throw (forbidden_roles (r ∷ rs) user.roles)

abbrev missing : List Text → AuthenticatedUser → List Text
missing required user = filter (λ p. not (includes p user.permissions)) required

-- `PermissionsGuard.canActivate`
unfoldable pub permissions_guard :
    Option (List Text) → Option AuthenticatedUser → Except Denial (Unit {0})
unfolding filter includes
permissions_guard none user = ok tt
permissions_guard (some []) user = ok tt
permissions_guard (some (p ∷ ps)) none = throw invalid_credentials
permissions_guard (some (p ∷ ps)) (some user) =
    if ltb 0 (length (missing (p ∷ ps) user))
    then throw (forbidden_permissions (p ∷ ps) (missing (p ∷ ps) user))
    else ok tt

-- `info?.message === s`
abbrev message_is : Text → Option Text → Bool
message_is s none = false
message_is s (some m) = text_eq m s

-- `JwtAuthGuard.handleRequest`: whether there is an error, the user, and the message of `info`.
unfoldable pub handle_request :
    Bool → Option AuthenticatedUser → Option Text → Except Denial AuthenticatedUser
unfolding text_eq
handle_request err user info =
    if message_is (codes "jwt expired") info
    then throw token_expired
    else if message_is (codes "No auth token") info || message_is (codes "invalid token") info
    then throw token_invalid
    else if err
    then throw invalid_credentials
    else elim user [ none ↦ throw invalid_credentials | some u ↦ ok u ]

-- `JwtAuthGuard.canActivate`: a public route is let through, and else Passport decides.
unfoldable pub jwt_can_activate : Option Bool → Bool → Bool
jwt_can_activate none passport = passport
jwt_can_activate (some is_public) passport = if is_public then true else passport

-- The rows that `validate` reads: a session, and a user with the roles and the permissions of each
-- role, which are absent if the stored value is no array.
pub record SessionRow : Type 0 where
  pub user_id : Text
  pub expires_at : ℕ
  pub revoked_at : Option ℕ

pub record RoleRow : Type 0 where
  pub name : Text
  pub permissions : Option (List Text)

pub record UserRow : Type 0 where
  pub id : Text
  pub email : Text
  pub status : UserStatus
  pub roles : List RoleRow

abbrev role_permissions : RoleRow → List Text
role_permissions r = elim r.permissions [ none ↦ [] | some ps ↦ ps ]

-- `user.roles.flatMap(…)`
unfoldable pub all_permissions : List RoleRow → List Text
all_permissions [] = []
all_permissions (r ∷ rs) = role_permissions r ++ all_permissions rs

-- `[...new Set(ps)]`: the first occurrence of each, in order.
unfoldable pub unique_onto : List Text → List Text → List Text
unfolding includes
unique_onto seen [] = []
unique_onto seen (p ∷ ps) =
    let new = p ∷ unique_onto (p ∷ seen) ps in
    let old = unique_onto seen ps in if includes p seen then old else new

-- `JwtStrategy.validate`, after the signature and the expiry were checked: the session and the user
-- that the queries of the token's subject return.
unfoldable pub validate : Option SessionRow → Option UserRow → Except Denial AuthenticatedUser
unfolding all_permissions unique_onto status_eq
validate none user = throw token_invalid
validate (some session) none = throw user_not_found
validate (some session) (some user) =
    if status_eq user.status active
    then ok (record {
      id = user.id;
      email = user.email;
      roles = map (λ (r : RoleRow). r.name) user.roles;
      permissions = unique_onto [] (all_permissions user.roles);
    })
    else throw (user_inactive user.status)
