-- ===== src/Presentation.antt =====
-- What stands between the controllers and the client: the exception filters of src/common/filters and
-- src/presentation/rest/filters.
pub mod Filters
pub mod AuthController
pub mod LoggingInterceptor
pub mod Envelope
pub mod HttpFilter
