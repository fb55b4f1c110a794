-- ===== src/Infrastructure/Repository/Events.antt =====
-- The domain service over this repository.
use enterprise_system.Prelude.{ℕ, ◌≡◌}
use enterprise_system.Domain.Identity.{UniqueId}
use enterprise_system.Domain.User.{Stamp}
use enterprise_system.Domain.Port.{PasswordHasher}
use enterprise_system.Domain.Service.{World, RegisterParams, register_user}
use enterprise_system.Domain.Service.Publishing.{register_user-silent}
use enterprise_system.Infrastructure.Repository.{Client, user_repository}
use enterprise_system.Infrastructure.Repository.Concurrency.{save-events}

-- A registration over this repository publishes no event, whatever the client and the hasher do and
-- whether it returns or throws: the event of the new user is lost.
pub register_user-unpublished :
    {Store : Type 0} (client : Client Store) (hasher : PasswordHasher) (id : UniqueId) (now : ℕ)
    (st : Stamp) (p : RegisterParams) (w : World Store)
    → (register_user (user_repository client) hasher id now st p w).1.published ≡ w.published
register_user-unpublished client hasher =
    register_user-silent (user_repository client) hasher (save-events client)
