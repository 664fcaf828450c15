-- ===== src/Middleware.antt =====
-- src/tr_shared/middleware: the middleware that answers a repeated POST from the first response, and
-- the one that answers and reports what nothing else has handled.
pub mod Idempotency
pub mod ErrorHandler
pub mod UnstorableText
pub mod CorrelationId
pub mod ClientIp
