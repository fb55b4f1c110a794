-- ===== src/Application/CreateUser/Registered.antt =====
-- What a registration that returned went through.
use enterprise_system.Prelude.{
  ℕ, false, ◌≡◌, List, [], ◌∷◌, Text, Except, ok, throw, arith, refl, ap, ◌∙◌, sym, Except-cases,
  inl, inr, Bool-cases,
}
use enterprise_system.Prelude.Action.{Action}
use enterprise_system.Domain.Fault.{
  Fault, error, email_already_exists, user_not_found, user_suspended, concurrency_conflict,
  type_error, PasswordRule, Message,
}
use enterprise_system.Domain.Identity.{UniqueId}
use enterprise_system.Domain.Email as Email
use enterprise_system.Domain.Password as Password
use enterprise_system.Domain.Password.{strength_errors, refuse}
use enterprise_system.Domain.User.{User, Stamp}
use enterprise_system.Domain.Port.{UserRepository, PasswordHasher}
use enterprise_system.Domain.Service.{World, RegisterParams, register_user, at_store}
use enterprise_system.Application.CreateUser.{
  CreateUserDto, registered, params, with_values, create_user,
}

refuse-ok :
    (es : List PasswordRule) (q p : Password.Password) → refuse es q ≡ ok p → (es ≡ []) × (q ≡ p)
refuse-ok [] q p h = (refl, ground arith)
refuse-ok (e ∷ es) q p h = absurd (ground arith)

-- A password that was accepted breaks no rule, and is kept as it is.
create-strong :
    (raw : Text) (p : Password.Password)
    → Password.create raw ≡ ok p
    → (strength_errors raw ≡ []) × (p.raw_value ≡ raw)
unfolding Password.create
create-strong [] p h = absurd (ground arith)
create-strong (c ∷ raw) p h =
    let (e, q) = refuse-ok (strength_errors (c ∷ raw)) _ p h in (e, rw (← q) refl)

registered-ok : (r : Except Fault User) (u : User) → registered r ≡ ok (ok u) → r ≡ ok u
unfolding registered
registered-ok (ok v) u h = ground arith
registered-ok (throw (error m)) u h = absurd (ground arith)
registered-ok (throw (email_already_exists e)) u h = absurd (ground arith)
registered-ok (throw (user_not_found key type)) u h = absurd (ground arith)
registered-ok (throw (user_suspended e)) u h = absurd (ground arith)
registered-ok (throw (concurrency_conflict e)) u h = absurd (ground arith)
registered-ok (throw type_error) u h = absurd (ground arith)

module _ {Store : Type 0} (repository : UserRepository Store) (hasher : PasswordHasher)
    (id : UniqueId) (now : ℕ) (st : Stamp) where
  -- A registration that returned has found the address free.
  register_user-free :
      (p : RegisterParams) (w : World Store) (u : User)
      → (register_user repository hasher id now st p w).0 ≡ ok u
      → (repository.exists_by_email p.email w.store).0 ≡ ok false
  unfolding register_user at_store
  register_user-free p w u h = elim (Except-cases (repository.exists_by_email p.email w.store).0) [
    | inr (x, e) ↦ absurd (let g = rw e at h in ground arith)
    | inl (b, e) ↦ elim (Bool-cases b) [
      | inl f ↦ absurd (let g = rw f at (rw e at h) in ground arith)
      | inr f ↦ e ∙ ap ok f
    ]
  ]

  module _ (transact : Action Fault (World Store) User → Action Fault (World Store) User)
      (returns : (m : Action Fault (World Store) User) (w : World Store)
        → (transact m w).0 ≡ (m w).0)
      (dto : CreateUserDto) where
    with_values-ok :
        (e : Except Fault Email.Email) (q : Except Fault Password.Password) (w : World Store)
        (u : User)
        → (with_values repository hasher transact id now st dto e q w).0 ≡ ok (ok u)
        → (email : Email.Email) × (password : Password.Password) × (e ≡ ok email)
          × (q ≡ ok password)
          × ((register_user repository hasher id now st
                (params repository hasher transact id now st dto email password)
                w).0
              ≡ ok u)
    with_values-ok (throw x) q w u h = absurd (ground arith)
    with_values-ok (ok email) (throw x) w u h = absurd (ground arith)
    with_values-ok (ok email) (ok password) w u h =
        (email, password, refl, refl, sym (returns _ w) ∙ registered-ok _ u h)

    -- A user is created only with a well formed address that the repository found free and a password that
    -- breaks no rule of strength; the user is then the one that the domain service returned. The unit of
    -- work returns or throws what its function does.
    pub create_user-ok :
        (w : World Store) (u : User)
        → (create_user repository hasher transact id now st dto w).0 ≡ ok (ok u)
        → (email : Email.Email) × (password : Password.Password) × (Email.create dto.email
            ≡ ok email)
          × (strength_errors dto.password ≡ [])
          × (password.raw_value ≡ dto.password)
          × ((repository.exists_by_email email w.store).0 ≡ ok false)
          × ((register_user repository hasher id now st
                (params repository hasher transact id now st dto email password)
                w).0
              ≡ ok u)
    unfolding create_user
    create_user-ok w u h =
        let (email, password, e, q, r) =
          with_values-ok (Email.create dto.email) (Password.create dto.password) w u h in
        let (strong, kept) = create-strong dto.password password q in
        (email, password, e, strong, kept, register_user-free _ w u r, r)

    -- A plain error of the domain service escapes the use case: it is thrown again, and is no failure of the
    -- result. The unit of work returns or throws what its function does.
    pub create_user-escapes :
        (w : World Store) (email : Email.Email) (password : Password.Password) (m : Message)
        → Email.create dto.email ≡ ok email
        → Password.create dto.password ≡ ok password
        → (register_user repository hasher id now st
            (params repository hasher transact id now st dto email password)
            w).0
          ≡ throw (error m)
        → (create_user repository hasher transact id now st dto w).0 ≡ throw (error m)
    unfolding create_user registered
    create_user-escapes w email password m e q r =
        rw (e, create_user) (rw q (rw (returns _ w) (rw r refl)))
