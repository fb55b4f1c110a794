-- ===== src/Tests/Guards.antt =====
-- The throttler and the guards on concrete requests.
use enterprise_system.Prelude.{◌≡◌, none, some, refl, [], ◌∷◌, codes, Text, ok, arith, text_eq}
use enterprise_system.Prelude.Dict.{Dict, lookup, Unique}
use enterprise_system.Domain.Fault.{active}
use enterprise_system.Security.Throttler.{RateLimitEntry, Limits}
use enterprise_system.Security.Throttler.Window.{passes, passes_new}
use enterprise_system.Security.Access.{AuthenticatedUser, SessionRow, UserRow, validate}

abbrev three_a_minute : Limits
three_a_minute = record { limit = 3; window_seconds = 60; key_prefix = codes "rl" }

abbrev alice : Text
alice = codes "rl:ip:10.0.0.1"

abbrev eve : Text
eve = codes "rl:ip:10.0.0.2"

abbrev store : Dict RateLimitEntry
store =
    (alice, record { count = 3; reset_time = 500 })
    ∷ (eve, record { count = 1; reset_time = 90000 })
    ∷ []

unique : Unique store
unfolding lookup text_eq
unique = (refl, (refl, tt))

passes_new_example :
    passes ((1000, 1001) ∷ (1100, 1101) ∷ (1200, 1201) ∷ (1300, 1301) ∷ []) three_a_minute alice []
    ≡ 3
unfolding lookup
passes_new_example =
    passes_new three_a_minute alice 1000 1001 ((1100, 1101) ∷ (1200, 1201) ∷ (1300, 1301) ∷ []) []
      refl (omega arith, (omega arith, (omega arith, tt)))

abbrev editor : AuthenticatedUser
editor = record {
  id = codes "1";
  email = codes "bob@example.com";
  roles = codes "editor" ∷ [];
  permissions = codes "read" ∷ codes "write" ∷ [];
}

abbrev session : SessionRow
session = record { user_id = codes "1"; expires_at = 100; revoked_at = none }

abbrev row : UserRow
row = record {
  id = codes "1";
  email = codes "bob@example.com";
  status = active;
  roles =
      record {
        name = codes "editor";
        permissions = some (codes "read" ∷ codes "write" ∷ codes "read" ∷ []);
      }
      ∷ [];
}

validated : validate (some session) (some row) ≡ ok editor
unfolding validate
validated = refl
