-- ===== src/Observability.antt =====
-- The observability layer (src/observability).
pub mod Logger
pub mod Health
