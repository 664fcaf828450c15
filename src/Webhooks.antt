-- ===== src/Webhooks.antt =====
-- src/tr_shared/webhooks: verification, deduplication and dispatch of incoming webhooks.
pub mod Schemas
pub mod Verifier
pub mod Idempotency
pub mod Router
pub mod Endpoint
mod Tests
