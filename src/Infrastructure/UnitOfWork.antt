-- ===== src/Infrastructure/UnitOfWork.antt =====
-- The transactions of the program (src/infrastructure/database/unit-of-work.ts) and the hashing of passwords
-- (src/infrastructure/security/password-hasher.impl.ts), over the client of Prisma and bcrypt as parameters.
pub mod Hashing
use enterprise_system.Prelude.{ℕ, Bool, true, false, List, [], ◌∷◌, Text, codes, Except, ok, throw}

-- `prisma.transaction`: it calls a function with a client of its own.
abbrev pub Transaction : Type 0 → Type 0 → Type 0 → Type 0 → Type 0
Transaction E Tx W A = (Tx → W → Except E A × W) → W → Except E A × W

pub record TransactionalRepositories (Repo : Type 0) : Type 0 where
  pub user_repo : Repo

module _ {E W Repo A : Type 0} (Tx : Type 0) where
  -- The repository of the unit is handed on, not one of the transaction. What is thrown is logged and thrown on.
  unfoldable pub execute :
      Transaction E Tx W A
      → Repo
      → (TransactionalRepositories Repo → W → Except E A × W)
      → W
      → Except E A × W
  execute transaction user_repo fn w =
      transaction (λ (tx : Tx) (w' : W). fn (record { user_repo = user_repo }) w') w

-- The two calls of bcrypt, which may throw; `salt` is what it draws.
pub record Bcrypt : Type 0 where
  pub hash : ℕ → Text → Text → Except Text Text
  pub compare : Text → Text → Except Text Bool

-- The errors of the hasher.
pub data HashError : Type 0 where
  empty_password empty_hash hashing_failed : HashError

abbrev pub salt_rounds : ℕ
salt_rounds = 12

module _ (bcrypt : Bcrypt) where
  abbrev pub hashed : Except Text Text → Except HashError Text
  hashed (ok h) = ok h
  hashed (throw e) = throw hashing_failed

  unfoldable pub hash : Text → Text → Except HashError Text
  hash salt [] = throw empty_password
  hash salt (c ∷ s) = hashed (bcrypt.hash salt_rounds salt (c ∷ s))

  abbrev pub or_false : Except Text Bool → Bool
  or_false (ok b) = b
  or_false (throw e) = false

  unfoldable pub compare : Text → Text → Except HashError Bool
  compare [] hashed_value = throw empty_password
  compare (c ∷ s) [] = throw empty_hash
  compare (c ∷ s) (d ∷ t) = ok (or_false (bcrypt.compare (c ∷ s) (d ∷ t)))
