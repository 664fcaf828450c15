-- ===== src/RateLimiter.antt =====
-- The package src/tr_shared/rate_limiter.
pub mod Schemas
pub mod MemoryFallback
pub mod Algorithms
pub mod Core
