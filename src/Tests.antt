-- ===== src/Tests.antt =====
-- Concrete runs of the program's parts.
pub mod Fixtures
pub mod Users
pub mod Accounts
pub mod Storage
pub mod Resilience
pub mod Guards
pub mod Tokens
pub mod Http
pub mod Refreshing
pub mod Workers
pub mod Logins
pub mod Registrations
pub mod Caches
pub mod Answers
pub mod Secrets
pub mod Mails
pub mod Pages
pub mod Requests
pub mod Days
