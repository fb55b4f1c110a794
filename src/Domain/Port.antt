-- ===== src/Domain/Port.antt =====
-- The ports of the domain (src/domain/ports): what the domain service asks of the repository and of
-- the hasher. A repository call reads and writes the store, and may throw.
use enterprise_system.Prelude.{Bool, Text}
use enterprise_system.Prelude.Action.{Action}
use enterprise_system.Domain.Fault.{Fault}
use enterprise_system.Domain.Identity.{UniqueId}
use enterprise_system.Domain.Email.{Email}
use enterprise_system.Domain.User.{User}

pub record UserRepository (Store : Type 0) : Type 0 where
  pub find_by_id : UniqueId → Action Fault Store User
  pub find_by_email : Email → Action Fault Store User
  pub exists_by_email : Email → Action Fault Store Bool
  pub save : User → Action Fault Store User
  pub delete : UniqueId → Action Fault Store (Unit {0})

pub record PasswordHasher : Type 0 where
  pub hash : Text → Text
  pub compare : Text → Text → Bool
