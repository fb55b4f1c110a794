-- ===== src/Application/Authenticate/Outcomes.antt =====
-- Who gets tokens, and what escapes the use case.
use enterprise_system.Prelude.{
  true, ◌≡◌, ◌≢◌, Option, none, some, Text, Except, ok, throw, arith, refl,
}
use enterprise_system.Domain.Fault.{
  Fault, error, cannot_record_login, active, user_not_found, email_already_exists, user_suspended,
  concurrency_conflict, type_error,
}
use enterprise_system.Domain.Email as Email
use enterprise_system.Domain.User.{User}
use enterprise_system.Domain.Port.{UserRepository, PasswordHasher}
use enterprise_system.Domain.Service.{authenticate, stored_hash}
use enterprise_system.Domain.Service.Laws.{
  Authenticated, authenticate-Authenticated, authenticate-not_active,
}
use enterprise_system.Application.RefreshToken.{SessionRepository, TokenService, AuthTokens}
use enterprise_system.Application.Authenticate.{
  Credentials, Moment, State, caught, answer, with_email, authenticate_user,
}

module _ {Store : Type 0} (repository : UserRepository Store) (hasher : PasswordHasher)
    (sessions : SessionRepository Store) (tokens : TokenService) (at : Moment)
    (p : Credentials) where
  caught-throw : (e : Fault) (t : AuthTokens) → caught e ≢ ok (ok t)
  unfolding caught
  caught-throw (error m) t h = ground arith
  caught-throw (user_not_found key type) t h = ground arith
  caught-throw (email_already_exists e) t h = ground arith
  caught-throw (user_suspended e) t h = ground arith
  caught-throw (concurrency_conflict e) t h = ground arith
  caught-throw type_error t h = ground arith

  answer-ok :
      (r : Except Fault (Option User)) (s : State Store) (t : AuthTokens)
      → (answer repository hasher sessions tokens at p r s).0 ≡ ok (ok t)
      → (user : User) × (r ≡ ok (some user))
  unfolding answer
  answer-ok (throw e) s t h = absurd (caught-throw e t h)
  answer-ok (ok none) s t h = absurd (ground arith)
  answer-ok (ok (some user)) s t h = (user, refl)

  with_email-ok :
      (r : Except Fault Email.Email) (s : State Store) (t : AuthTokens)
      → (with_email repository hasher sessions tokens at p r s).0 ≡ ok (ok t)
      → (email : Email.Email) × (r ≡ ok email)
        × Authenticated repository hasher email p.password s.world.store
  with_email-ok (throw e) s t h = absurd (ground arith)
  with_email-ok (ok email) s t h =
      let (r, w) = authenticate repository hasher at.stamp email p.password s.world in
      let (user, e) = answer-ok r (record s { world = w }) t h in
      (
        email,
        refl,
        authenticate-Authenticated repository hasher at.stamp email p.password s.world user e,
      )

  -- Tokens are given only for an address that is well formed and is that of a stored active user whose
  -- hash the password fits.
  pub authenticate_user-Authenticated :
      (s : State Store) (t : AuthTokens)
      → (authenticate_user repository hasher sessions tokens at p s).0 ≡ ok (ok t)
      → (email : Email.Email) × (Email.create p.email ≡ ok email)
        × Authenticated repository hasher email p.password s.world.store
  unfolding authenticate_user
  authenticate_user-Authenticated s t h = with_email-ok (Email.create p.email) s t h

  -- The right password of a stored user who is not active makes the use case throw the plain error of the
  -- entity, which is no failure of the result; no session is made and no event published.
  pub authenticate_user-not_active :
      (s : State Store) (email : Email.Email) (hash : Text) (user : User)
      → Email.create p.email ≡ ok email
      → (repository.find_by_email email s.world.store).0 ≡ ok user
      → stored_hash user.password ≡ some hash
      → hasher.compare p.password hash ≡ true
      → user.status ≢ active
      → authenticate_user repository hasher sessions tokens at p s ≡ (
        throw (error (cannot_record_login user.status)),
        record s {
          world = record s.world { store = (repository.find_by_email email s.world.store).1 };
        },
      )
  unfolding authenticate_user answer caught
  authenticate_user-not_active s email hash user e f g c n =
      let k =
        authenticate-not_active repository hasher at.stamp email p.password hash s.world user f g c
          n in
      rw (e, authenticate_user) (rw k refl)
