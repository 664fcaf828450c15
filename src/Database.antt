-- ===== src/Database.antt =====
-- The database layer of src/tr_shared/db.
pub mod Repository
pub mod MergeGate
pub mod Migrations
pub mod Session
pub mod Like
