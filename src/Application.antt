-- ===== src/Application.antt =====
-- The use cases of the application layer (src/application/use-cases).
pub mod RefreshToken
pub mod Authenticate
pub mod CreateUser
pub mod Outcome
pub mod Audit
pub mod Mapper
pub mod Validation
