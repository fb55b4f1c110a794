-- ===== src/Tests/Registrations.antt =====
-- The registration of a user by the use case, over the tables of Storage.
use enterprise_system.Prelude.{any}
use enterprise_system.Domain.Identity.{is_uuid_v4}
use enterprise_system.Domain.Identity.{from_string}
use enterprise_system.Infrastructure.Repository.Mapping.{to_domain}
use enterprise_system.Infrastructure.Repository.{save}
use enterprise_system.Domain.User.{create}
use enterprise_system.Prelude.{filter}
use enterprise_system.Infrastructure.Repository.{exists_by_email}
use enterprise_system.Prelude.{◌≡◌, false, none, some, [], codes, ok, throw, refl, text_eq, trim}
use enterprise_system.Prelude.Action.{Action}
use enterprise_system.Domain.Fault.{Fault, pending_verification, error, name_empty, first_name}
use enterprise_system.Domain.Email as Email
use enterprise_system.Domain.Password as Password
use enterprise_system.Domain.Password.{strength_errors}
use enterprise_system.Domain.User.{User}
use enterprise_system.Domain.Service.{World, register_user}
use enterprise_system.Application.CreateUser.{CreateUserDto, params, create_user}
use enterprise_system.Application.CreateUser.Registered.{create_user-ok}
use enterprise_system.Application.Mapper.{to_create_params}
use enterprise_system.Application.Mapper.Created.{create_user-to_create_params}
use enterprise_system.Tests.Fixtures.{bob_email, bob_id, first_stamp}
use enterprise_system.Tests.Storage.{Table, repository, hasher, loaded_bob, empty}

-- A unit of work that only calls its function.
abbrev transact : Action Fault (World Table) User → Action Fault (World Table) User
transact m = m

abbrev dto : CreateUserDto
dto = record {
  email = codes " Bob@Example.com";
  password = codes "Secret1!";
  first_name = codes "Bob";
  last_name = codes "Builder";
}

-- A name of white space, which the length of the DTO's rules lets through.
abbrev unnamed : CreateUserDto
unnamed = record dto { first_name = codes "  " }

abbrev password : Password.Password
password = record { raw_value = codes "Secret1!"; hashed_value = none }

abbrev new_bob : User
new_bob = record (loaded_bob pending_verification 1) {
  password = record { raw_value = []; hashed_value = some (codes "#Secret1!") };
  email_verified = false;
  created_at = 0;
  updated_at = 0;
}

created :
    (create_user repository hasher transact bob_id 10 first_stamp dto empty).0 ≡ ok (ok new_bob)
unfolding create_user register_user text_eq Email.create Password.create Email.to_lower_case trim
    Email.is_email strength_errors exists_by_email filter Password.from_hash create save to_domain
    from_string is_uuid_v4 Email.from_persistence
created = refl

create_user-ok_example :
    (email : Email.Email) × (q : Password.Password) × (Email.create dto.email ≡ ok email)
    × (strength_errors dto.password ≡ [])
    × (q.raw_value ≡ dto.password)
    × ((repository.exists_by_email email []).0 ≡ ok false)
    × ((register_user repository hasher bob_id 10 first_stamp
          (params repository hasher transact bob_id 10 first_stamp dto email q)
          empty).0
        ≡ ok new_bob)
create_user-ok_example =
    create_user-ok repository hasher bob_id 10 first_stamp transact (λ m w. refl) dto empty new_bob
      created

well_formed : Email.create (codes " Bob@Example.com") ≡ ok bob_email
unfolding Email.create Email.to_lower_case trim Email.is_email
well_formed = refl

create_user-to_create_params_example :
    create_user repository hasher transact bob_id 10 first_stamp (to_create_params dto) empty
    ≡ create_user repository hasher transact bob_id 10 first_stamp dto empty
create_user-to_create_params_example =
    create_user-to_create_params repository hasher transact bob_id 10 first_stamp dto bob_email
      empty well_formed

strong : Password.create (codes "Secret1!") ≡ ok password
unfolding Password.create strength_errors any
strong = refl

thrown :
    (register_user repository hasher bob_id 10 first_stamp
      (params repository hasher transact bob_id 10 first_stamp unnamed bob_email password)
      empty).0
    ≡ throw (error (name_empty first_name))
unfolding register_user text_eq exists_by_email filter Password.from_hash create trim
thrown = refl
