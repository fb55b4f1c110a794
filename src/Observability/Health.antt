-- ===== src/Observability/Health.antt =====
-- The health of the program and of what it depends on (src/observability/health-check:
-- health-check.service.ts and health-indicators.ts). The version and the readings of the clock are arguments.
pub mod Worst
use enterprise_system.Prelude.{
  ℕ, ◌-◌, ◌/◌, Bool, true, false, Option, none, some, List, [], ◌∷◌, map, filter, length, ltb,
  if◌then◌else◌, Text, codes, Except, ok, throw, text_eq,
}
use enterprise_system.Infrastructure.EmailService.{includes}
use enterprise_system.Observability.Logger.{Fields, field, end, primitive}

pub data HealthStatus : Type 0 where
  healthy degraded unhealthy : HealthStatus

pub record DependencyHealth : Type 0 where
  pub name : Text
  pub status : HealthStatus
  pub latency_ms : Option ℕ
  pub message : Option Text
  pub details : Option Fields

pub record SystemHealth : Type 0 where
  pub status : HealthStatus
  pub timestamp : ℕ
  pub uptime : ℕ
  pub version : Text
  pub dependencies : List DependencyHealth

unfoldable pub is_unhealthy : DependencyHealth → Bool
is_unhealthy d = elim d.status [ healthy ↦ false | degraded ↦ false | unhealthy ↦ true ]

unfoldable pub is_degraded : DependencyHealth → Bool
is_degraded d = elim d.status [ healthy ↦ false | degraded ↦ true | unhealthy ↦ false ]

unfoldable pub calculate_overall_status : List DependencyHealth → HealthStatus
unfolding filter is_unhealthy is_degraded
calculate_overall_status deps =
    if ltb 0 (length (filter is_unhealthy deps))
    then unhealthy
    else if ltb 0 (length (filter is_degraded deps))
    then degraded
    else healthy

-- `result.reason?.message || 'Health check failed'`
unfoldable pub reason_of : Option Text → Text
reason_of none = codes "Health check failed"
reason_of (some []) = codes "Health check failed"
reason_of (some (c ∷ s)) = c ∷ s

-- What a check that settled says of its dependency: its value, or that it was rejected, with the message of
-- the reason if there is one.
unfoldable pub settled : Except (Option Text) DependencyHealth → DependencyHealth
unfolding reason_of
settled (ok health) = health
settled (throw reason) = record {
  name = codes "unknown";
  status = unhealthy;
  latency_ms = none;
  message = some (reason_of reason);
  details = none;
}

unfoldable pub check_readiness :
    Text → ℕ → ℕ → List (Except (Option Text) DependencyHealth) → SystemHealth
unfolding calculate_overall_status settled
check_readiness version start_time now results =
    let dependencies = map settled results in
    record {
      status = calculate_overall_status dependencies;
      timestamp = now;
      uptime = (now - start_time) / 1000;
      version = version;
      dependencies = dependencies;
    }

-- `error instanceof Error ? error.message : d`
unfoldable pub error_message : Text → Option Text → Text
error_message d none = d
error_message d (some m) = m

-- What each of the three checks makes of the answer of a client, or of what it threw, and of the time it took.
abbrev failing : Text → Text → ℕ → Option Text → DependencyHealth
failing name d latency e = record {
  name = name;
  status = unhealthy;
  latency_ms = some latency;
  message = some (error_message d e);
  details = none;
}

unfoldable pub check_postgres : Except (Option Text) (Unit {0}) → ℕ → DependencyHealth
unfolding error_message
check_postgres (ok u) latency = record {
  name = codes "postgresql";
  status = healthy;
  latency_ms = some latency;
  message = none;
  details = none;
}
check_postgres (throw e) latency =
    failing (codes "postgresql") (codes "Connection failed") latency e

unfoldable pub check_redis : Except (Option Text) Text → ℕ → DependencyHealth
unfolding error_message text_eq
check_redis (ok pong) latency = record {
  name = codes "redis";
  status = if text_eq pong (codes "PONG") then healthy else degraded;
  latency_ms = some latency;
  message = none;
  details = none;
}
check_redis (throw e) latency = failing (codes "redis") (codes "Connection failed") latency e

unfoldable pub check_bullmq : Except (Option Text) Text → ℕ → DependencyHealth
unfolding error_message includes
check_bullmq (ok info) latency = record {
  name = codes "bullmq";
  status = if includes (codes "db") info then healthy else degraded;
  latency_ms = some latency;
  message = none;
  details = some (field (codes "redisConnected") (primitive (codes "true")) end);
}
check_bullmq (throw e) latency = failing (codes "bullmq") (codes "Queue check failed") latency e

unfoldable pub check_all :
    Except (Option Text) (Unit {0}) × ℕ
    → Except (Option Text) Text × ℕ
    → Except (Option Text) Text × ℕ
    → List DependencyHealth
unfolding check_postgres check_redis check_bullmq
check_all (p, a) (r, b) (q, c) = check_postgres p a ∷ check_redis r b ∷ check_bullmq q c ∷ []
