-- ===== src/Cache.antt =====
-- The cache of src/tr_shared/cache: the interface of a provider, and the service and the helpers on it.
pub mod Backend
pub mod Adapter
pub mod Service
pub mod Helpers
