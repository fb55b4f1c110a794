-- ===== src/Domain/Aggregate.antt =====
-- The user aggregate (src/domain/aggregates/user.aggregate.ts): a user with its role assignments and
-- its sessions. A method takes the aggregate and returns the new one, or what it threw.
pub mod Roles
pub mod Sessions
use enterprise_system.Prelude.{
  ℕ, ◌+◌, ◌<◌, Bool, true, false, not, ◌&&◌, List, [], ◌∷◌, ◌++◌, map, Option, none, some, ltb,
  length, any, filter, is_some, take, drop, get_elem?, if◌then◌else◌, Text, text_eq, Except, ok,
  throw, ◌>>=◌,
}
use enterprise_system.Domain.Fault.{
  Fault, error, role_already_assigned, session_of_non_active, session_of_unverified,
  session_not_found, session_already_revoked,
}
use enterprise_system.Domain.Identity.{UniqueId, id_eq}
use enterprise_system.Domain.Event.{DomainEvent}
use enterprise_system.Domain.User as Entity
use enterprise_system.Domain.User.{User, Stamp, CreateParams, is_active}
use enterprise_system.Domain.User.Method.{Method, suspend, deactivate, call}

pub record RoleAssignment : Type 0 where
  pub id : UniqueId
  pub role_id : UniqueId
  pub role_name : Text
  pub granted_at : ℕ
  pub granted_by : Option UniqueId

pub record SessionInfo : Type 0 where
  pub id : UniqueId
  pub user_agent : Option Text
  pub ip_address : Option Text
  pub expires_at : ℕ
  pub created_at : ℕ
  pub revoked_at : Option ℕ

pub record UserAggregate : Type 0 where
  pub user : User
  pub roles : List RoleAssignment
  pub sessions : List SessionInfo

unfoldable pub create : UniqueId → ℕ → Stamp → CreateParams → Except Fault UserAggregate
create id now st p = do
  user ← Entity.create id now st p
  ok (record { user = user; roles = []; sessions = [] })

abbrev or_empty {ℓ} : {A : Type ℓ} → Option (List A) → List A
or_empty none = []
or_empty (some xs) = xs

unfoldable pub reconstitute :
    User → Option (List RoleAssignment) → Option (List SessionInfo) → UserAggregate
reconstitute user roles sessions = record {
  user = user;
  roles = or_empty roles;
  sessions = or_empty sessions;
}

unfoldable pub has_role : UniqueId → UserAggregate → Bool
unfolding any
has_role role_id a = any (λ (r : RoleAssignment). id_eq r.role_id role_id) a.roles

unfoldable pub has_role_by_name : Text → UserAggregate → Bool
unfolding any
has_role_by_name name a = any (λ (r : RoleAssignment). text_eq r.role_name name) a.roles

unfoldable pub assign_role : RoleAssignment → UserAggregate → Except Fault UserAggregate
unfolding any
assign_role role a =
    if any (λ (r : RoleAssignment). id_eq r.role_id role.role_id) a.roles
    then throw (error (role_already_assigned role.role_name))
    else ok (record a { roles = a.roles ++ role ∷ [] })

-- The new aggregate, and whether a role was found.
unfoldable pub remove_role : UniqueId → UserAggregate → UserAggregate × Bool
unfolding filter
remove_role role_id a =
    let kept = filter (λ (r : RoleAssignment). not (id_eq r.role_id role_id)) a.roles in
    (record a { roles = kept }, ltb (length kept) (length a.roles))

unfoldable pub add_session : SessionInfo → UserAggregate → Except Fault UserAggregate
unfolding is_active
add_session session a =
    if not (is_active a.user)
    then throw (error session_of_non_active)
    else if not a.user.email_verified
    then throw (error session_of_unverified)
    else ok (record a { sessions = a.sessions ++ session ∷ [] })

-- `sessions.findIndex(s => s.id.equals(id))`; `none` is -1.
unfoldable pub find_index : UniqueId → List SessionInfo → Option ℕ
find_index id [] = none
find_index id (s ∷ ss) =
    if id_eq s.id id
    then some 0
    else elim (find_index id ss) [ none ↦ none | some i ↦ some (i + 1) ]

-- The session at the index, with the time of revocation, between the slices before and after it.
replace_revoked : ℕ → ℕ → Option SessionInfo → UserAggregate → Except Fault UserAggregate
replace_revoked now i none a = throw (error session_not_found)
replace_revoked now i (some s) a =
    if is_some s.revoked_at
    then throw (error session_already_revoked)
    else ok (record a {
      sessions = take i a.sessions ++ record s { revoked_at = some now } ∷ drop (i + 1) a.sessions;
    })

revoke_at : ℕ → Option ℕ → UserAggregate → Except Fault UserAggregate
unfolding replace_revoked
revoke_at now none a = throw (error session_not_found)
revoke_at now (some i) a = replace_revoked now i (get_elem? a.sessions i) a

unfoldable pub revoke_session : ℕ → UniqueId → UserAggregate → Except Fault UserAggregate
unfolding revoke_at find_index
revoke_session now id a = revoke_at now (find_index id a.sessions) a

unfoldable pub get_active_sessions : ℕ → UserAggregate → List SessionInfo
unfolding filter
get_active_sessions now a =
    filter (λ (s : SessionInfo). not (is_some s.revoked_at) && ltb now s.expires_at) a.sessions

unfoldable pub revoke_if_active : ℕ → SessionInfo → SessionInfo
revoke_if_active now s = if is_some s.revoked_at then s else record s { revoked_at = some now }

unfoldable pub revoke_all_sessions : ℕ → UserAggregate → UserAggregate
unfolding revoke_if_active
revoke_all_sessions now a = record a { sessions = map (revoke_if_active now) a.sessions }

-- A call that is handed to the user; what the aggregate does after it, at the time `now`.
unfoldable pub delegate : ℕ → Method → Stamp → UserAggregate → Except Fault UserAggregate
unfolding revoke_all_sessions call
delegate now suspend st a = do
  user ← call suspend st a.user
  ok (revoke_all_sessions now (record a { user = user }))
delegate now deactivate st a = do
  user ← call deactivate st a.user
  ok (revoke_all_sessions now (record a { user = user }))
delegate now m st a = do user ← call m st a.user; ok (record a { user = user })

unfoldable pub pull_domain_events : UserAggregate → List DomainEvent × UserAggregate
unfolding Entity.pull_domain_events
pull_domain_events a =
    let (events, user) = Entity.pull_domain_events a.user in (events, record a { user = user })
