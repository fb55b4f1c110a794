-- ===== src/Domain/Password.antt =====
-- Password (src/domain/value-objects/password.vo.ts).
use enterprise_system.Prelude.{
  ℕ, Bool, not, ◌&&◌, List, [], ◌∷◌, ◌++◌, Option, none, some, ltb, leb, ◌==◌, length, any,
  if◌then◌else◌, is_some, Text, codes, Except, ok, throw,
}
use enterprise_system.Domain.Fault.{
  Fault, error, password_empty, password_weak, hash_empty, PasswordRule, too_short, too_long,
  no_uppercase, no_lowercase, no_digit, no_special,
}

pub record Password : Type 0 where
  pub raw_value : Text
  pub hashed_value : Option Text

abbrev pub min_length : ℕ
min_length = 8

abbrev pub max_length : ℕ
max_length = 128

unfoldable pub is_upper : ℕ → Bool
is_upper c = leb b'A' c && leb c b'Z'

unfoldable pub is_lower : ℕ → Bool
is_lower c = leb b'a' c && leb c b'z'

unfoldable pub is_digit : ℕ → Bool
is_digit c = leb b'0' c && leb c b'9'

-- The class of special characters: `!` to `/`, `:` to `@`, `[` to `` ` `` and `{` to `~`, written out
-- in the source.
unfoldable pub is_special : ℕ → Bool
is_special c = any (λ d. c == d) (codes "!@#$%^&*()_+-=[]{};':\"\\|,.<>/?`~")

abbrev rule : Bool → PasswordRule → List PasswordRule
rule broken r = if broken then r ∷ [] else []

unfoldable pub strength_errors : Text → List PasswordRule
unfolding is_upper is_lower is_digit is_special
strength_errors password =
    rule (ltb (length password) min_length) too_short
    ++ rule (ltb max_length (length password)) too_long
    ++ rule (not (any is_upper password)) no_uppercase
    ++ rule (not (any is_lower password)) no_lowercase
    ++ rule (not (any is_digit password)) no_digit
    ++ rule (not (any is_special password)) no_special

-- Throws when the list of errors is not empty.
abbrev pub refuse : List PasswordRule → Password → Except Fault Password
refuse [] p = ok p
refuse (e ∷ es) p = throw (error (password_weak (e ∷ es)))

unfoldable pub create : Text → Except Fault Password
create [] = throw (error password_empty)
create (c ∷ raw) =
    refuse (strength_errors (c ∷ raw)) (record { raw_value = c ∷ raw; hashed_value = none })

unfoldable pub from_hash : Text → Except Fault Password
from_hash [] = throw (error hash_empty)
from_hash (c ∷ hash) = ok (record { raw_value = []; hashed_value = some (c ∷ hash) })

unfoldable pub is_hashed : Password → Bool
is_hashed p = is_some p.hashed_value

unfoldable pub set_hash : Text → Password → Except Fault Password
set_hash [] p = throw (error hash_empty)
set_hash (c ∷ hash) p = ok (record p { hashed_value = some (c ∷ hash) })
