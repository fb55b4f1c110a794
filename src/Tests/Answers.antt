-- ===== src/Tests/Answers.antt =====
-- The filters and the results on concrete errors.
use enterprise_system.Prelude.{
  ℕ, ◌≡◌, true, Option, none, some, List, [], ◌∷◌, refl, Text, codes, ◌==◌, if◌then◌else◌,
}
use enterprise_system.Application.Outcome.{Result, ok, fail}
use enterprise_system.Presentation.Filters.{Context, thrown, value, catch_all}
use enterprise_system.Presentation.Filters.Statuses.{catch_all-IsUnknown}

abbrev live : Context
live = record {
  header_request_id = none;
  context_request_id = some (codes "r1");
  url = codes "/users";
  production = true;
  error_id = codes "e1";
}

-- `HttpStatus[status]` and the digits of a status, for 404 alone.
abbrev name : ℕ → Option Text
name status = if status == 404 then some (codes "NOT_FOUND") else none

abbrev digits : ℕ → Text
digits status = codes "404"

catch_all-IsUnknown_example :
    catch_all {J = ℕ} name digits live (thrown (codes "no such table: users"))
    ≡ catch_all name digits live (value (codes "undefined"))
catch_all-IsUnknown_example =
    catch_all-IsUnknown name digits live (thrown (codes "no such table: users"))
      (value (codes "undefined")) refl tt tt

abbrev mixed : List (Result ℕ Text)
mixed = ok 1 ∷ fail (codes "a") ∷ ok 2 ∷ fail (codes "b") ∷ []
