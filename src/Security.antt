-- ===== src/Security.antt =====
-- The security layer (src/security).
pub mod Throttler
pub mod Access
pub mod Tokens
pub mod Encryption
