-- ===== src/Tests/Storage.antt =====
-- The domain service and the repository over a table of rows in memory.
use enterprise_system.Domain.User.{create}
use enterprise_system.Infrastructure.Repository.{exists_by_email}
use enterprise_system.Infrastructure.Repository.{find_by_email}
use enterprise_system.Domain.Email.{to_lower_case}
use enterprise_system.Domain.Email.{from_persistence}
use enterprise_system.Domain.Password.{from_hash}
use enterprise_system.Domain.Identity.{is_uuid_v4}
use enterprise_system.Domain.Identity.{from_string}
use enterprise_system.Prelude.{
  ℕ, ◌≡◌, Bool, true, false, none, some, Option, refl, List, [], ◌∷◌, codes, Text, text_eq,
  text_eq_refl, trim, Except, ok, throw, filter, length, not, ◌++◌, if◌then◌else◌, ◌==◌, arith,
  Bool-cases, Option-cases, inl, inr,
}
use enterprise_system.Domain.Fault.{
  UserStatus, active, suspended, pending_verification, concurrency_conflict,
}
use enterprise_system.Domain.User.{User}
use enterprise_system.Domain.Port.{UserRepository, PasswordHasher}
use enterprise_system.Domain.Service.{World, RegisterParams, register_user, authenticate}
use enterprise_system.Domain.Service.Laws.{Authenticated, authenticate-Authenticated}
use enterprise_system.Infrastructure.Repository.{
  Row, RowData, DbError, record_not_found, Client, save, user_repository, to_domain,
}
use enterprise_system.Infrastructure.Repository.Concurrency.{IsVersioned, save-save}
use enterprise_system.Tests.Fixtures.{bob, bob_as, bob_id, bob_email, bob_hash, first_stamp}

-- A table: a later row of an id hides the earlier ones.
abbrev pub Table : Type 0
Table = List Row

abbrev find_row : (Row → Bool) → Table → Option Row
find_row p [] = none
find_row p (r ∷ rs) = let rest = find_row p rs in if p r then some r else rest

abbrev row_from : Text → RowData → Row
row_from id d = record {
  id = id;
  email = d.email;
  password_hash = elim d.password_hash [ none ↦ bob_hash | some h ↦ h ];
  first_name = d.first_name;
  last_name = d.last_name;
  status = d.status;
  email_verified = d.email_verified;
  last_login_at = d.last_login_at;
  version = d.version;
  created_at = 0;
  updated_at = 0;
}

abbrev has_id : Text → Row → Bool
has_id id r = text_eq r.id id

abbrev has_email : Text → Row → Bool
has_email e r = text_eq r.email e

abbrev update_found : Text → ℕ → RowData → Option Row → Table → Except DbError Row × Table
update_found id version d none s = (throw record_not_found, s)
update_found id version d (some row) s =
    if row.version == version
    then (ok (row_from id d), row_from id d ∷ s)
    else (throw record_not_found, s)

abbrev pub client : Client Table
client = record {
  find_by_id = λ id s. (ok (find_row (has_id id) s), s);
  find_by_email = λ e s. (ok (find_row (has_email e) s), s);
  count_by_email = λ e s. (ok (length (filter (has_email e) s)), s);
  update = λ id version d s. update_found id version d (find_row (has_id id) s) s;
  create = λ d s. (ok (row_from d.id d), row_from d.id d ∷ s);
  delete = λ id s. (
    elim (find_row (has_id id) s) [ none ↦ throw record_not_found | some r ↦ ok r ],
    filter (λ r. not (has_id id r)) s,
  );
}

updated_lem :
    (id : Text) (version : ℕ) (d : RowData) (s : Table) (row : Row)
    → (client.update id version d s).0 ≡ ok row
    → (row.version ≡ d.version)
      × ((client.find_by_id id (client.update id version d s).1).0 ≡ ok (some row))
updated_lem id version d s row h = elim (Option-cases (find_row (has_id id) s)) [
  | inl e ↦ let g = rw e at h in absurd (ground arith)
  | inr (old, e) ↦ elim (Bool-cases (old.version == version)) [
    | inl f ↦
        let g : row_from id d ≡ row = let k = rw f at (rw e at h) in ground arith in
        (rw (← g) refl, rw e (rw f (rw (text_eq_refl id) (rw g refl))))
    | inr f ↦ let g = rw f at (rw e at h) in absurd (ground arith)
  ]
]

versioned : IsVersioned client
versioned = record {
  reads = λ id s. refl;
  stale = λ id version d s row f n. ground arith;
  updated = updated_lem;
}

abbrev pub hasher : PasswordHasher
hasher = record {
  hash = λ raw. codes "#" ++ raw;
  compare = λ raw hash. text_eq hash (codes "#" ++ raw);
}

abbrev pub row_as : UserStatus → Row
row_as status = record {
  id = bob_id.value;
  email = bob_email.value;
  password_hash = codes "#secret";
  first_name = bob.first_name;
  last_name = bob.last_name;
  status = status;
  email_verified = true;
  last_login_at = none;
  version = 1;
  created_at = 10;
  updated_at = 10;
}

-- The user of that row, with a version.
abbrev pub loaded_bob : UserStatus → ℕ → User
loaded_bob status version = record (bob_as status) {
  password = record { raw_value = []; hashed_value = some (codes "#secret") };
  domain_events = [];
  version = version;
}

abbrev pub world : UserStatus → World Table
world status = record { store = row_as status ∷ []; published = [] }

found_row :
    (status : UserStatus)
    → (client.find_by_id bob_id.value (row_as status ∷ [])).0 ≡ ok (some (row_as status))
unfolding text_eq
found_row status = refl

-- A user that was loaded and not changed.
-- Two users that were loaded together and changed once each.
abbrev renamed_bob : User
renamed_bob = record (loaded_bob active 2) { first_name = codes "Rob" }

abbrev saved_bob : User
saved_bob = record (loaded_bob active 2) { created_at = 0; updated_at = 0 }

first_saved : (save client (loaded_bob active 2) (row_as active ∷ [])).0 ≡ ok saved_bob
unfolding save text_eq to_domain from_string is_uuid_v4 trim from_hash from_persistence
    to_lower_case
first_saved = refl

save-save_example :
    (save client renamed_bob (save client (loaded_bob active 2) (row_as active ∷ [])).1).0
    ≡ throw (concurrency_conflict bob_id.value)
save-save_example =
    save-save client versioned (loaded_bob active 2) renamed_bob saved_bob (row_as active ∷ [])
      (row_as active) (found_row active) refl refl (omega arith) first_saved

abbrev pub repository : UserRepository Table
repository = user_repository client

abbrev pub logged_bob : User
logged_bob = record (loaded_bob active 2) {
  last_login_at = some first_stamp.login_at;
  created_at = 0;
  updated_at = 0;
}

pub logged_in :
    (authenticate repository hasher first_stamp bob_email (codes "secret") (world active)).0
    ≡ ok (some logged_bob)
unfolding authenticate text_eq find_by_email to_domain from_string is_uuid_v4 trim from_hash save
    from_persistence to_lower_case
logged_in = refl

authenticate-Authenticated_example :
    Authenticated repository hasher bob_email (codes "secret") (row_as active ∷ [])
authenticate-Authenticated_example =
    authenticate-Authenticated repository hasher first_stamp bob_email (codes "secret")
      (world active) logged_bob logged_in

pub found_suspended :
    (repository.find_by_email bob_email (row_as suspended ∷ [])).0 ≡ ok (loaded_bob suspended 1)
unfolding text_eq to_domain find_by_email from_string is_uuid_v4 trim from_hash from_persistence
    to_lower_case
found_suspended = refl

abbrev pub params : RegisterParams
params = record {
  email = bob_email;
  raw_password = record { raw_value = codes "Secret1!"; hashed_value = none };
  first_name = codes "Bob";
  last_name = codes "Builder";
}

abbrev pub empty : World Table
empty = record { store = []; published = [] }

-- The registration succeeds.
registered :
    (register_user repository hasher bob_id 10 first_stamp params empty).0
    ≡ ok (record (loaded_bob pending_verification 1) {
      password = record { raw_value = []; hashed_value = some (codes "#Secret1!") };
      email_verified = false;
      created_at = 0;
      updated_at = 0;
    })
unfolding register_user text_eq exists_by_email filter from_hash create trim save to_domain
    from_string is_uuid_v4 from_persistence to_lower_case
registered = refl
