-- ===== src/Http.antt =====
-- The package src/tr_shared/http.
pub mod CircuitBreaker
pub mod Client
pub mod InternalClient
