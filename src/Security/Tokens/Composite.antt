-- ===== src/Security/Tokens/Composite.antt =====
-- The text of a refresh token.
use enterprise_system.Prelude.{ℕ, ◌≡◌, ◌≢◌, some, [], ◌∷◌, ◌++◌, All, Text, arith, refl}
use enterprise_system.Security.Tokens.{split_dot, token_value, parse_token, compose_token}

-- A text without a dot.
abbrev pub IsDotless : Text → Type 0
IsDotless = All (λ c. c ≢ b'.')

split_dot-dotless : (v : Text) → IsDotless v → split_dot v ≡ v ∷ []
unfolding split_dot
split_dot-dotless [] d = refl
split_dot-dotless (c ∷ v) (n, d) = ground (arith, split_dot-dotless v d)

split_dot-compose :
    (u v : Text) → IsDotless u → IsDotless v → split_dot (u ++ b'.' ∷ v) ≡ u ∷ v ∷ []
unfolding split_dot
split_dot-compose [] v _ d = ground (arith, split_dot-dotless v d)
split_dot-compose (c ∷ u) v (n, d) e = ground (arith, split_dot-compose u v d e)

-- The user id and the value that a refresh token is made of are read back from it, if they are not
-- empty and have no dot.
pub parse_token-compose_token :
    (a b : ℕ) (u v : Text)
    → IsDotless (a ∷ u)
    → IsDotless (b ∷ v)
    → parse_token (compose_token (a ∷ u) (b ∷ v)) ≡ some (a ∷ u, b ∷ v)
unfolding parse_token compose_token token_value
parse_token-compose_token a b u v d e = rw (split_dot-compose (a ∷ u) (b ∷ v) d e)
