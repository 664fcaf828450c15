-- ===== src/Schemas.antt =====
-- src/tr_shared/schemas: the validators.
pub mod Validators
