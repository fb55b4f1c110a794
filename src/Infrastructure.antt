-- ===== src/Infrastructure.antt =====
-- The infrastructure layer (src/infrastructure).
pub mod Repository
pub mod HttpClient
pub mod Cache
pub mod Messaging
pub mod EmailService
pub mod UnitOfWork
