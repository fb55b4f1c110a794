-- ===== src/Common.antt =====
-- The shared utilities (src/common).
pub mod CircuitBreaker
pub mod Retry
pub mod Parallel
pub mod Crypto
pub mod Pagination
pub mod Dates
