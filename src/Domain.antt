-- ===== src/Domain.antt =====
-- The domain layer (src/domain): value objects, events, the user entity and its aggregate, the
-- specifications, the ports and the domain service.
pub mod Fault
pub mod Identity
pub mod Email
pub mod Password
pub mod Event
pub mod User
pub mod Aggregate
pub mod Specification
pub mod Port
pub mod Service
pub mod Result
