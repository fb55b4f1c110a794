-- ===== src/Domain/Email/Grammar.antt =====
-- `Email.EMAIL_REGEX`.
use enterprise_system.Prelude.{ℕ, Bool, ◌&&◌, ◌||◌, leb, ◌==◌, any, Text, codes}
use enterprise_system.Regex.{Regex, one, seq, star, unit, plus, optional, up_to, test}

-- `[a-zA-Z0-9]`
unfoldable pub is_alnum : ℕ → Bool
is_alnum c = (leb b'a' c && leb c b'z') || (leb b'A' c && leb c b'Z') || (leb b'0' c && leb c b'9')

-- ``[a-zA-Z0-9.!#$%&'*+/=?^_`{|}~-]``
unfoldable pub is_local : ℕ → Bool
unfolding is_alnum any
is_local c = is_alnum c || any (λ d. c == d) (codes ".!#$%&'*+/=?^_`{|}~-")

-- `[a-zA-Z0-9-]`
unfoldable pub is_inner : ℕ → Bool
unfolding is_alnum
is_inner c = is_alnum c || c == b'-'

-- `[a-zA-Z0-9](?:[a-zA-Z0-9-]{0,61}[a-zA-Z0-9])?`
unfoldable pub label : Regex
unfolding is_alnum is_inner up_to
label = seq (one is_alnum) (optional (seq (up_to 61 (one is_inner)) (one is_alnum)))

-- The domain: a label, and further labels behind dots.
unfoldable pub domain : Regex
unfolding label
domain = seq label (star (seq (unit b'.') label))

unfoldable pub email_regex : Regex
unfolding is_local domain
email_regex = seq (plus (one is_local)) (seq (unit b'@') domain)

-- `EMAIL_REGEX.test(s)`
unfoldable pub is_email : Text → Bool
unfolding email_regex test
is_email s = test email_regex s
