-- ===== src/Integrations.antt =====
-- src/tr_shared/integrations: the client that reads the tenants' configurations.
pub mod ConfigClient
pub mod Portals
