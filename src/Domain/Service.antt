-- ===== src/Domain/Service.antt =====
-- The domain service (src/domain/domain-services/user-domain.service.ts). The state is the store of
-- the repository and the events that were handed to the publisher, which does not throw.
pub mod Laws
pub mod Publishing
use enterprise_system.Prelude.{
  ℕ, Bool, true, false, not, List, [], ◌∷◌, ◌++◌, Option, none, some, ltb, length, if◌then◌else◌,
  Text, Except, ok, throw,
}
use enterprise_system.Prelude.Action.{Action, pure, raise, lift, ◌>>=◌, ◌>>◌}
use enterprise_system.Domain.Fault.{Fault, email_already_exists}
use enterprise_system.Domain.Identity.{UniqueId, from_string}
use enterprise_system.Domain.Email.{Email}
use enterprise_system.Domain.Password.{Password, from_hash}
use enterprise_system.Domain.Event.{DomainEvent}
use enterprise_system.Domain.User as Entity
use enterprise_system.Domain.User.{User, Stamp, CreateParams, record_login, pull_domain_events}
use enterprise_system.Domain.Port.{UserRepository, PasswordHasher}

pub record World (Store : Type 0) : Type 0 where
  pub store : Store
  pub published : List DomainEvent

pub record RegisterParams : Type 0 where
  pub email : Email
  pub raw_password : Password
  pub first_name : Text
  pub last_name : Text

module _ {Store A : Type 0} where
  -- A call of the repository, in the state of the service.
  unfoldable pub at_store : Action Fault Store A → Action Fault (World Store) A
  at_store m w = let (r, s) = m w.store in (r, record w { store = s })

module _ {Store : Type 0} where
  -- `if (events.length > 0) await publish(events)`
  unfoldable pub publish : List DomainEvent → World Store → World Store
  publish events w =
      if ltb 0 (length events) then record w { published = w.published ++ events } else w

  -- Publishes what was pulled from the saved user; the saved user, without it, is returned.
  unfoldable pub dispatch : User → Action Fault (World Store) User
  unfolding pull_domain_events publish
  dispatch saved w = let (events, rest) = pull_domain_events saved in (ok rest, publish events w)

-- The stored hash of a password: a hash that is null or empty does not count.
unfoldable pub stored_hash : Password → Option Text
stored_hash p = elim p.hashed_value [ none ↦ none | some [] ↦ none | some (c ∷ h) ↦ some (c ∷ h) ]

module _ {Store : Type 0} (repository : UserRepository Store) (hasher : PasswordHasher) where
  -- `id`, `now` and `st` are the fresh id and the times that `User.create` reads.
  unfoldable pub register_new :
      UniqueId → ℕ → Stamp → RegisterParams → Action Fault (World Store) User
  unfolding at_store dispatch
  register_new id now st p = do
    hashed ← lift (from_hash (hasher.hash p.raw_password.raw_value))
    user ← lift (
        Entity.create id now st (record {
          email = p.email;
          password = hashed;
          first_name = p.first_name;
          last_name = p.last_name;
        }))
    saved ← at_store (repository.save user)
    dispatch saved

  unfoldable pub register_user :
      UniqueId → ℕ → Stamp → RegisterParams → Action Fault (World Store) User
  unfolding register_new
  register_user id now st p = do
    email_exists ← at_store (repository.exists_by_email p.email)
    if email_exists then raise (email_already_exists p.email.value) else register_new id now st p

  -- `record_login`, `save` and the events, once the password was compared.
  unfoldable pub log_in : Stamp → User → Action Fault (World Store) (Option User)
  unfolding at_store dispatch record_login
  log_in st user = do
    logged ← lift (record_login st user)
    saved ← at_store (repository.save logged)
    returned ← dispatch saved
    pure (some returned)

  unfoldable pub verify :
      Stamp → Text → User → Option Text → Action Fault (World Store) (Option User)
  unfolding log_in
  verify st raw user none = pure none
  verify st raw user (some hash) = if hasher.compare raw hash then log_in st user else pure none

  -- Whatever the lookup throws is caught, and the answer is `null`.
  unfoldable pub found : Stamp → Text → Except Fault User → Action Fault (World Store) (Option User)
  unfolding verify stored_hash
  found st raw (throw e) = pure none
  found st raw (ok user) = verify st raw user (stored_hash user.password)

  unfoldable pub authenticate : Stamp → Email → Text → Action Fault (World Store) (Option User)
  unfolding found at_store
  authenticate st email raw w =
      let (r, s) = repository.find_by_email email w.store in found st raw r (record w { store = s })

  unfoldable pub update_password : Stamp → Password → User → Action Fault (World Store) Bool
  unfolding at_store dispatch
  update_password st new_password user = do
    hashed ← lift (from_hash (hasher.hash new_password.raw_value))
    changed ← lift (Entity.change_password st hashed user)
    saved ← at_store (repository.save changed)
    dispatch saved
    pure true

  unfoldable pub check_password :
      Stamp → Text → Password → User → Option Text → Action Fault (World Store) Bool
  unfolding update_password
  check_password st current new_password user none = pure false
  check_password st current new_password user (some hash) =
      if hasher.compare current hash then update_password st new_password user else pure false

  unfoldable pub change_password : Stamp → Text → Text → Password → Action Fault (World Store) Bool
  unfolding check_password stored_hash at_store
  change_password st user_id current new_password = do
    id ← lift (from_string user_id)
    user ← at_store (repository.find_by_id id)
    check_password st current new_password user (stored_hash user.password)
