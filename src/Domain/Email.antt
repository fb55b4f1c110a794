-- ===== src/Domain/Email.antt =====
-- Email (src/domain/value-objects/email.vo.ts).
pub mod Grammar
pub mod Normal
unfoldable pub use Grammar.{is_email}
use enterprise_system.Prelude.{
  ℕ, ◌+◌, Bool, true, false, ◌&&◌, ◌≡◌, ◌↔◌, ap, List, [], ◌∷◌, ◌++◌, Option, ltb, leb, ◌==◌,
  length, get_elem?, if◌then◌else◌, Text, text_eq, text_eq_iff, trim, Except, ok, throw,
}
use enterprise_system.Domain.Fault.{Fault, error, email_empty, email_too_long, email_invalid}

pub record Email : Type 0 where
  pub value : Text

abbrev pub max_length : ℕ
max_length = 320

-- Lower case of a code unit: the ASCII letters, the Kelvin sign, whose lower case is `k`, and the
-- capital I with a dot, whose lower case is `i` and a combining dot. Any other code unit above 127 is
-- kept here; its lower case is a code unit above 127 too, which no email address may hold.
unfoldable pub lower : ℕ → Text
lower c =
    if leb b'A' c && leb c b'Z'
    then (c + 32) ∷ []
    else if c == 8490
    then b'k' ∷ []
    else if c == 304
    then b'i' ∷ 775 ∷ []
    else c ∷ []

-- `s.toLowerCase()`
unfoldable pub to_lower_case : Text → Text
unfolding lower
to_lower_case [] = []
to_lower_case (c ∷ s) = lower c ++ to_lower_case s

unfoldable pub create : Text → Except Fault Email
create [] = throw (error email_empty)
create (c ∷ raw) =
    let normalized = to_lower_case (trim (c ∷ raw)) in
    if ltb max_length (length normalized)
    then throw (error email_too_long)
    else if is_email normalized
    then ok (record { value = normalized })
    else throw (error (email_invalid (c ∷ raw)))

unfoldable pub from_persistence : Text → Email
from_persistence value = record { value = to_lower_case (trim value) }

-- `a.equals(b)`
unfoldable pub email_eq : Email → Email → Bool
email_eq a b = text_eq a.value b.value

pub email_eq_iff : (a b : Email) → (email_eq a b ≡ true) ↔ (a ≡ b)
unfolding email_eq
email_eq_iff a b = (
  λ e. let p = (text_eq_iff a.value b.value).0 e in λ i. record { value = p i },
  λ e. (text_eq_iff a.value b.value).1 (ap (λ (x : Email). x.value) e),
)

-- One more code unit in front of the pieces.
abbrev put_code : ℕ → List Text → List Text
put_code c [] = []
put_code c (p ∷ ps) = if c == b'@' then [] ∷ p ∷ ps else (c ∷ p) ∷ ps

-- `s.split('@')`
unfoldable pub split_at : Text → List Text
split_at [] = [] ∷ []
split_at (c ∷ s) = put_code c (split_at s)

-- The getters `localPart` and `domain`: the pieces 0 and 1; a piece that is not there is `undefined`.
unfoldable pub local_part : Email → Option Text
unfolding split_at
local_part e = get_elem? (split_at e.value) 0

unfoldable pub domain_part : Email → Option Text
unfolding split_at
domain_part e = get_elem? (split_at e.value) 1
