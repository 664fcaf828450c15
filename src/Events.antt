-- ===== src/Events.antt =====
-- src/tr_shared/events: event envelopes, the consumer of a Redis Stream and what it is made of.
pub mod RetryPolicy
pub mod RetryState
pub mod Envelope
pub mod Idempotency
pub mod Consumer
pub mod Outbox
pub mod Producer
pub mod DurablePublisher
pub mod Supervisor
pub mod GroupHealth
