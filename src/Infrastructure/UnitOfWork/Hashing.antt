-- ===== src/Infrastructure/UnitOfWork/Hashing.antt =====
-- The hashes of `PasswordHasherImpl` (src/infrastructure/security/password-hasher.impl.ts).
use enterprise_system.Prelude.{ℕ, ◌≡◌, ◌≢◌, true, arith, Text, [], ◌∷◌, Except, ok, throw, ap}
use enterprise_system.Infrastructure.UnitOfWork.{
  Bcrypt, salt_rounds, hash, hashed, compare, or_false,
}

-- What bcrypt documents: a hash is not empty, and it accepts the password that was hashed.
pub record IsBcrypt (bcrypt : Bcrypt) : Type 0 where
  pub solid : (rounds : ℕ) (salt p : Text) → bcrypt.hash rounds salt p ≢ ok []
  pub accepts :
      (rounds : ℕ) (salt p h : Text)
      → bcrypt.hash rounds salt p ≡ ok h
      → bcrypt.compare p h ≡ ok true

hashed-ok : (bcrypt : Bcrypt) (r : Except Text Text) (h : Text) → hashed bcrypt r ≡ ok h → r ≡ ok h
hashed-ok bcrypt (ok g) h e = cc
hashed-ok bcrypt (throw x) h e = absurd (ground arith)

-- Over a bcrypt that does what it documents, a password compares as equal with every hash that was made of it.
pub compare-hash :
    (bcrypt : Bcrypt) (salt p h : Text)
    → IsBcrypt bcrypt
    → hash bcrypt salt p ≡ ok h
    → compare bcrypt p h ≡ ok true
unfolding hash compare
compare-hash bcrypt salt [] h law e = absurd (ground arith)
compare-hash bcrypt salt (c ∷ s) [] law e = absurd (
    law.solid salt_rounds salt (c ∷ s)
      (hashed-ok bcrypt (bcrypt.hash salt_rounds salt (c ∷ s)) [] e))
compare-hash bcrypt salt (c ∷ s) (d ∷ t) law e =
    let made = hashed-ok bcrypt (bcrypt.hash salt_rounds salt (c ∷ s)) (d ∷ t) e in
    ap (λ r. ok (or_false bcrypt r)) (law.accepts salt_rounds salt (c ∷ s) (d ∷ t) made)
