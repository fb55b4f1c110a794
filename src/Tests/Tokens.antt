-- ===== src/Tests/Tokens.antt =====
-- Refresh tokens over a table of sessions in memory.
use enterprise_system.Prelude.{
  ℕ, ◌+◌, ◌≡◌, inl, inr, Bool, true, false, not, none, some, refl, List, [], ◌∷◌, ◌++◌, filter,
  length, codes, ok, throw, arith, All, text_eq, Bool-cases, if◌then◌else◌,
}
use enterprise_system.Domain.Fault.{active}
use enterprise_system.Security.Access.{UserRow}
use enterprise_system.Security.Tokens.{
  Session, TokenPair, Moment, Config, Platform, refresh_token_revoked, parse_token, refresh_tokens,
  is_live,
}
use enterprise_system.Security.Tokens.Composite.{IsDotless}
use enterprise_system.Security.Tokens.Revoked.{IsTable, IsClosed, row_of, revoke}
use enterprise_system.Presentation.AuthController.{Request, refresh, logout}
use enterprise_system.Presentation.AuthController.Ended.{logout-refresh}
use enterprise_system.Security.Tokens.Rotation.{refresh_tokens-reused}

abbrev Table : Type 0
Table = List Session

abbrev update_where : (Session → Bool) → ℕ → Table → Table
update_where p now [] = []
update_where p now (s ∷ ss) = (if p s then revoke now s else s) ∷ update_where p now ss

abbrev bob_row : UserRow
bob_row = record { id = codes "bob"; email = codes "bob@example.com"; status = active; roles = [] }

-- A value's hash has a mark in front.
abbrev platform : Platform Table
platform = record {
  find_sessions = λ p ss. filter p ss;
  create_session = λ n ss. row_of (codes "new") n ∷ ss;
  revoke_session = λ id now ss. update_where (λ s. text_eq s.id id) now ss;
  revoke_sessions = λ p now ss. (update_where p now ss, length (filter p ss));
  delete_sessions = λ p ss. (filter (λ s. not (p s)) ss, length (filter p ss));
  find_user = λ id ss. some bob_row;
  sign = λ c. c.sub;
  hash = λ rounds salt value. codes "#" ++ value;
  compare = λ value hash. text_eq hash (codes "#" ++ value);
}

filter-All :
    (Q : Session → Type 0) (p : Session → Bool) (ss : Table)
    → All (λ s. p s ≡ true → Q s) ss
    → All Q (filter p ss)
unfolding filter
filter-All Q p [] h = tt
filter-All Q p (s ∷ ss) (h, hs) = elim (Bool-cases (p s)) [
  | inl e ↦ rw e (h e, filter-All Q p ss hs)
  | inr e ↦ rw e (filter-All Q p ss hs)
]

update_where-All :
    (Q : Session → Type 0) (p : Session → Bool) (now : ℕ) (ss : Table)
    → All (λ s. Q (if p s then revoke now s else s)) ss
    → All Q (update_where p now ss)
update_where-All Q p now [] h = tt
update_where-All Q p now (s ∷ ss) (h, hs) = (h, update_where-All Q p now ss hs)

table : IsTable platform (λ ss. ss)
table = record {
  finds = filter-All;
  creates = λ Q n ss h hs. (h (codes "new"), hs);
  revokes = λ Q id now ss h. update_where-All Q (λ s. text_eq s.id id) now ss h;
  revokes_all = update_where-All;
}

abbrev config : Config
config = record {
  access_token_ttl = 900;
  refresh_token_ttl_days = 7;
  bcrypt_rounds = 12;
  issuer = codes "enterprise-system";
  audience = codes "enterprise-api";
}

abbrev laptop : Session
laptop = record {
  id = codes "1";
  user_id = codes "bob";
  refresh_token = codes "#old";
  user_agent = none;
  ip_address = none;
  expires_at = 1000;
  revoked_at = none;
}

abbrev phone : Session
phone = record laptop { id = codes "2"; refresh_token = codes "#other" }

abbrev sessions : Table
sessions = laptop ∷ phone ∷ []

abbrev moment : ℕ → Moment
moment t = record {
  found_at = t;
  revoked_at = t + 1;
  issued_at = t + 2;
  jti = codes "jti";
  refresh_value = codes "new";
  salt = [];
}

IsDotless-user : IsDotless (codes "bob")
IsDotless-user = (omega arith, (omega arith, (omega arith, tt)))

IsDotless-value : IsDotless (codes "old")
IsDotless-value = (omega arith, (omega arith, (omega arith, tt)))

parsed : parse_token (codes "bob.old") ≡ some (codes "bob", codes "old")
unfolding parse_token
parsed = refl

parsed_lost : parse_token (codes "bob.lost") ≡ some (codes "bob", codes "lost")
unfolding parse_token
parsed_lost = refl

lost :
    All
      (λ s.
        is_live (codes "bob") 10 s ≡ true → platform.compare (codes "lost") s.refresh_token ≡ false)
      sessions
unfolding text_eq
lost = (λ h. refl, (λ h. refl, tt))

abbrev request : Request
request = record { user_agent = none; ip = none }

logout-refresh_example :
    ((refresh platform config
        (codes "bob.old")
        request
        (moment 10)
        (logout platform (codes "bob") none 5 sessions)).1
      ≡ throw refresh_token_revoked)
    × All
        (IsClosed (codes "bob"))
        (refresh platform config
          (codes "bob.old")
          request
          (moment 10)
          (logout platform (codes "bob") none 5 sessions)).0
logout-refresh_example =
    logout-refresh platform (λ ss. ss) table config (codes "bob") (codes "bob.old") (codes "old") 5
      request (moment 10) sessions parsed

abbrev pair : TokenPair
pair = record { access_token = codes "bob"; refresh_token = codes "bob.new"; expires_in = 900 }

refreshed :
    (refresh_tokens platform config (codes "bob.old") none none (moment 10) sessions).1 ≡ ok pair
unfolding refresh_tokens filter
refreshed = refl

only : All (λ s. platform.compare (codes "old") s.refresh_token ≡ true → s.id ≡ codes "1") sessions
unfolding text_eq
only = (λ h. refl, (λ h. absurd (ground arith), tt))

fresh : platform.compare (codes "old") (codes "#new") ≡ false
unfolding text_eq
fresh = refl

abbrev rotated : Table
rotated = (refresh_tokens platform config (codes "bob.old") none none (moment 10) sessions).0

refresh_tokens-reused_example :
    ((refresh_tokens platform config (codes "bob.old") none none (moment 20) rotated).1
      ≡ throw refresh_token_revoked)
    × All
        (IsClosed (codes "bob"))
        (refresh_tokens platform config (codes "bob.old") none none (moment 20) rotated).0
refresh_tokens-reused_example =
    refresh_tokens-reused platform (λ ss. ss) table config none none (moment 10) (codes "bob.old")
      (codes "bob") (codes "old") (codes "1") sessions pair parsed refreshed only fresh none none
      (moment 20)
