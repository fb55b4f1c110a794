-- ===== src/Application/Mapper/Created.antt =====
-- That the mapping of the input of a registration does not change the registration.
use enterprise_system.Prelude.{◌≡◌, ℕ, Except, ok, throw, ap, refl, sym, ◌∙◌, trim, if◌then◌else◌}
use enterprise_system.Prelude.Action.{Action, lift, raise, ◌>>=◌}
use enterprise_system.Prelude.Trimmed.{trim_idem}
use enterprise_system.Domain.Fault.{Fault, email_already_exists}
use enterprise_system.Domain.Identity.{UniqueId}
use enterprise_system.Domain.Email as Email
use enterprise_system.Domain.Email.{to_lower_case}
use enterprise_system.Domain.Email.Normal.{create-create, create-value}
use enterprise_system.Domain.Password as Password
use enterprise_system.Domain.Password.{Password, from_hash}
use enterprise_system.Domain.User as Entity
use enterprise_system.Domain.User.{User, Stamp, validate_name}
use enterprise_system.Domain.Port.{UserRepository, PasswordHasher}
use enterprise_system.Domain.Service.{
  World, RegisterParams, at_store, dispatch, register_new, register_user,
}
use enterprise_system.Application.CreateUser.{
  CreateUserDto, with_values, create_user, params, registered,
}
use enterprise_system.Application.Mapper.{to_create_params}

create-trim :
    (id : UniqueId) (now : ℕ) (st : Stamp) (p : Entity.CreateParams)
    → Entity.create id now st
        (record p { first_name = trim p.first_name; last_name = trim p.last_name })
      ≡ Entity.create id now st p
unfolding Entity.create validate_name
create-trim id now st p = rw (trim_idem p.first_name) (rw (trim_idem p.last_name) refl)

module _ {Store : Type 0} (repository : UserRepository Store) (hasher : PasswordHasher) where
  register_user-trim :
      (id : UniqueId) (now : ℕ) (st : Stamp) (p : RegisterParams)
      → register_user repository hasher id now st
          (record p { first_name = trim p.first_name; last_name = trim p.last_name })
        ≡ register_user repository hasher id now st p
  unfolding register_user register_new
  register_user-trim id now st p =
      let made : (λ (h : Password). Entity.create id now st (record {
        email = p.email;
        password = h;
        first_name = trim p.first_name;
        last_name = trim p.last_name;
      }))
          ≡ (λ h. Entity.create id now st (record {
            email = p.email;
            password = h;
            first_name = p.first_name;
            last_name = p.last_name;
          })) =
        λ i h.
          create-trim id now st
            (record {
              email = p.email;
              password = h;
              first_name = p.first_name;
              last_name = p.last_name;
            })
            i in
      ap
        (λ (make : Password → Except Fault User).
          at_store (repository.exists_by_email p.email) >>= λ email_exists.
          if email_exists
          then raise (email_already_exists p.email.value)
          else (lift (from_hash (hasher.hash p.raw_password.raw_value)) >>= λ hashed.
              lift (make hashed) >>= λ user. at_store (repository.save user) >>= dispatch))
        made

  module _ (transact : Action Fault (World Store) User → Action Fault (World Store) User)
      (id : UniqueId) (now : ℕ) (st : Stamp) where
    with_values-trim :
        (dto : CreateUserDto) (e : Email.Email) (q : Except Fault Password) (w : World Store)
        → with_values repository hasher transact id now st (to_create_params dto) (ok e) q w
          ≡ with_values repository hasher transact id now st dto (ok e) q w
    unfolding to_create_params
    with_values-trim dto e (throw x) w = refl
    with_values-trim dto e (ok q) w =
        ap (λ m. let (r, v) = transact m w in (registered r, v))
          (register_user-trim id now st (params repository hasher transact id now st dto e q))

    -- To register the input of a user as the mapper writes it, with its email address in lower case and without
    -- the white space around it and the names, does and returns what to register the input itself does, if the
    -- email address of the input is one that the domain accepts.
    pub create_user-to_create_params :
        (dto : CreateUserDto) (e : Email.Email) (w : World Store)
        → Email.create dto.email ≡ ok e
        → create_user repository hasher transact id now st (to_create_params dto) w
          ≡ create_user repository hasher transact id now st dto w
    unfolding create_user to_create_params
    create_user-to_create_params dto e w h =
        let same : Email.create (to_lower_case (trim dto.email)) ≡ ok e =
          ap Email.create (sym (create-value dto.email e h)) ∙ create-create dto.email e h in
        let password = Password.create dto.password in
        ap
          (λ x.
            with_values repository hasher transact id now st (to_create_params dto) x password w)
          same
        ∙ with_values-trim dto e password w
        ∙ ap (λ x. with_values repository hasher transact id now st dto x password w) (sym h)
