-- ===== src/Domain/Service/Laws.antt =====
-- What the operations of the domain service establish, for every repository and hasher.
use enterprise_system.Prelude.{
  ℕ, true, false, ◌≡◌, ◌≢◌, Option, none, some, refl, arith, Except, ok, throw, Bool-cases, inl,
  inr, Text,
}
use enterprise_system.Domain.Fault.{
  Fault, error, cannot_record_login, email_already_exists, active, status_eq, status_eq_iff,
}
use enterprise_system.Domain.Identity.{UniqueId}
use enterprise_system.Domain.Email.{Email}
use enterprise_system.Domain.Password.{Password}
use enterprise_system.Domain.User.{User, Stamp}
use enterprise_system.Domain.Port.{UserRepository, PasswordHasher}
use enterprise_system.Domain.Service.{
  World, at_store, RegisterParams, register_user, authenticate, found, verify, log_in, stored_hash,
}

stored_hash-some : (p : Password) (h : Text) → stored_hash p ≡ some h → p.hashed_value ≡ some h
unfolding stored_hash
stored_hash-some p h e = ground arith

module _ {Store : Type 0} (repository : UserRepository Store) (hasher : PasswordHasher) where
  -- What a caller may conclude from a user that `authenticate` returned.
  pub record Authenticated (email : Email) (raw : Text) (s : Store) : Type 0 where
    pub user : User
    pub hash : Text
    pub listed : (repository.find_by_email email s).0 ≡ ok user
    pub hashed : user.password.hashed_value ≡ some hash
    pub verified : hasher.compare raw hash ≡ true
    pub is_active : user.status ≡ active

  log_in-active :
      (st : Stamp) (user : User) (w : World Store)
      → user.status ≢ active
      → log_in repository hasher st user w ≡ (throw (error (cannot_record_login user.status)), w)
  unfolding log_in
  log_in-active st user w n =
      let e : status_eq user.status active ≡ false =
        ground (arith, status_eq_iff user.status active) in
      rw e

  verify-some :
      (st : Stamp) (raw : Text) (user v : User) (o : Option Text) (w : World Store)
      → (verify repository hasher st raw user o w).0 ≡ ok (some v)
      → (hash : Text) × (o ≡ some hash) × (hasher.compare raw hash ≡ true) × (user.status ≡ active)
  unfolding verify
  verify-some st raw user v none w h = cc
  verify-some st raw user v (some hash) w h = elim (Bool-cases (hasher.compare raw hash)) [
    | inl e ↦ elim (Bool-cases (status_eq user.status active)) [
      | inl s ↦ (hash, refl, e, (status_eq_iff user.status active).0 s)
      | inr n ↦ absurd (ground arith)
    ]
    | inr e ↦ absurd (ground arith)
  ]

  found-some :
      (st : Stamp) (email : Email) (raw : Text) (s : Store) (r : Except Fault User)
      (w : World Store) (v : User)
      → (repository.find_by_email email s).0 ≡ r
      → (found repository hasher st raw r w).0 ≡ ok (some v)
      → Authenticated email raw s
  unfolding found
  found-some st email raw s (throw e) w v f h = cc
  found-some st email raw s (ok user) w v f h =
      let (hash, e, c, a) = verify-some st raw user v (stored_hash user.password) w h in
      record {
        user = user;
        hash = hash;
        listed = f;
        hashed = stored_hash-some user.password hash e;
        verified = c;
        is_active = a;
      }

  -- A user is returned only if the email address is that of a stored user who is active, and the
  -- password fits the stored hash.
  pub authenticate-Authenticated :
      (st : Stamp) (email : Email) (raw : Text) (w : World Store) (v : User)
      → (authenticate repository hasher st email raw w).0 ≡ ok (some v)
      → Authenticated email raw w.store
  unfolding authenticate
  authenticate-Authenticated st email raw w v h =
      let (r, s) = repository.find_by_email email w.store in
      found-some st email raw w.store r (record w { store = s }) v refl h

  -- With the right password of a stored user who is not active, the call throws a plain error, and
  -- neither saves nor publishes anything.
  pub authenticate-not_active :
      (st : Stamp) (email : Email) (raw hash : Text) (w : World Store) (user : User)
      → (repository.find_by_email email w.store).0 ≡ ok user
      → stored_hash user.password ≡ some hash
      → hasher.compare raw hash ≡ true
      → user.status ≢ active
      → authenticate repository hasher st email raw w ≡ (
        throw (error (cannot_record_login user.status)),
        record w { store = (repository.find_by_email email w.store).1 },
      )
  unfolding authenticate
  authenticate-not_active st email raw hash w user f s c n =
      rw f (unfold found in rw s (unfold verify in rw c (log_in-active st user _ n)))

  -- An email address that is taken is refused, and nothing is saved or published.
  pub register_user-taken :
      (id : UniqueId) (now : ℕ) (st : Stamp) (p : RegisterParams) (w : World Store)
      → (repository.exists_by_email p.email w.store).0 ≡ ok true
      → register_user repository hasher id now st p w ≡ (
        throw (email_already_exists p.email.value),
        record w { store = (repository.exists_by_email p.email w.store).1 },
      )
  unfolding register_user at_store
  register_user-taken id now st p w e = rw e
