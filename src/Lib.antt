-- ===== src/Lib.antt =====
-- The enterprise system: users, their sessions and the services around them.
--
-- The program is a NestJS server in layers. The domain (src/domain) holds the users, their value objects
-- and the aggregate of a user with roles and sessions; its service registers and authenticates users over
-- two ports, a repository and a password hasher. The application layer (src/application) has three use
-- cases, which register users, log them in and renew their tokens over ports, and decorators that validate
-- the input of a use case and audit its run. The infrastructure (src/infrastructure) implements the
-- repositories over a database client, the hasher over bcrypt, the cache over Redis, and the queue of
-- domain events, which remembers in the cache what it has processed; its HTTP client and its email service
-- call the world outside. The security layer (src/security) stands in front of the routes: the throttler,
-- the guards of roles and permissions, the validation of access tokens and the life of refresh tokens,
-- which the routes of the authentication controller (src/presentation) hand out and revoke. Filters turn
-- what is thrown into responses. The shared utilities (src/common) are retry, the circuit breaker, the
-- worker pool, pagination and helpers for dates, hashes and random texts.
--
-- What models which part:
--   Prelude          texts as lists of UTF-16 code units, rounding to doubles, exceptions (`Except`), code with a state that may
--                    throw (`Action`), association lists (`Dict`), and the array methods of the source.
--   Regex            regular expressions as data, with the test of an anchored expression.
--   Domain           Identity, Email, Password: src/domain/value-objects. Event, Fault: the events and what
--                    is thrown. User: src/domain/entities/user.entity.ts, one function for each method
--                    (`changeEmail` is `change_email`). Aggregate: src/domain/aggregates/user.aggregate.ts.
--                    Specification, Port and Service: the folders of those names. Result:
--                    src/domain/common/result.ts.
--   Application      RefreshToken, Authenticate and CreateUser: src/application/use-cases. Outcome:
--                    src/application/result.ts. Audit and Validation: src/application/decorators. Mapper:
--                    src/application/mappers/user.mapper.ts.
--   Infrastructure   Repository: src/infrastructure/database/repositories/user.repository.impl.ts.
--                    UnitOfWork: src/infrastructure/database/unit-of-work.ts and
--                    src/infrastructure/security/password-hasher.impl.ts. HttpClient and EmailService:
--                    src/infrastructure/external-services. Cache and Messaging: the folders of those names.
--   Common           Retry, CircuitBreaker and Parallel: src/common/utils/async.util.ts. Crypto:
--                    src/common/utils/crypto.util.ts. Dates: src/common/utils/date.util.ts. Pagination:
--                    src/common/types/pagination.type.ts, src/application/dto/pagination.dto.ts and
--                    src/infrastructure/database/base.repository.ts.
--   Security         Throttler: src/security/rate-limiting. Access: the guards and
--                    src/security/authentication/jwt.strategy.ts. Tokens: auth.service.ts of the same folder.
--                    Encryption: src/security/encryption.
--   Observability    Logger: src/observability/logging/logger.service.ts. Health:
--                    src/observability/health-check.
--   Presentation     Filters and HttpFilter: src/common/filters and src/presentation/rest/filters. Envelope:
--                    the two transform.interceptor.ts, of src/common/interceptors and of
--                    src/presentation/rest/interceptors. AuthController and LoggingInterceptor:
--                    src/presentation/rest.
--   Tests            concrete runs.
--
-- A method takes the state and returns the new one, or what it threw. A time is the number that the clock
-- gives at one reading; readings, random values and fresh ids are arguments. The database client, Redis,
-- the queue, the provider of mails, bcrypt, the functions of node:crypto, date-fns, class-validator, the
-- signature of a JWT and Passport are parameters, with what they document as named hypotheses
-- (`IsVersioned`, `IsTable`, `Documented`, `IsExact`, `IsBcrypt` and those that stand with their
-- theorems). Calls of one circuit breaker are two halves each, which may interleave with those of others;
-- a run of the worker pool is the sequence in which its tasks finish; the deliveries of the queue are a
-- list in any order.
--
-- Bounds and fuel: numbers are natural numbers, as no count of the source comes near 2^53. The tokens of the
-- rate limiter of the email service alone are a fraction: they are the doubles of the source, in units of
-- 2^-62, and every operation rounds as IEEE 754 says (Prelude.Double); its unit doubles up to 64 times, which is
-- enough below 2^117, far above the refill of any time below 2^53 milliseconds. The loop of
-- `retry` runs on the number of attempts that are left, which starts at `maxAttempts` and falls by one
-- with each attempt, so it never ends early; so do those of `request` in the HTTP client and of `send` in
-- the email service. The digits of a number are written with the number for fuel, which is at least the
-- number of its digits but one.
--
-- Not modelled: the callbacks of retry and of the circuit breaker, the random lengths of waits, what is
-- only logged, serialization to primitives, failures of the database in the token service, the routes of
-- the user and health controllers, which return fixed answers, the decorators that document or mark
-- routes, metrics and tracing, Supabase, the configuration and the wiring of modules.
pub mod Prelude
pub mod Regex
pub mod Domain
pub mod Infrastructure
pub mod Common
pub mod Security
pub mod Application
pub mod Observability
pub mod Presentation
pub mod Tests
