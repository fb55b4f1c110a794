-- ===== src/Domain/Event.antt =====
-- Domain events (src/domain/domain-events): the fields of the base class, and the payload of each
-- subclass. The event's id is random, and its time is read from the clock: both are arguments.
use enterprise_system.Prelude.{ℕ, Text}
use enterprise_system.Domain.Fault.{UserStatus}

pub data Payload : Type 0 where
  user_created : Text → Payload
  status_changed : UserStatus → UserStatus → Payload

pub record DomainEvent : Type 0 where
  pub event_id : Text
  pub occurred_at : ℕ
  pub aggregate_id : Text
  pub payload : Payload
