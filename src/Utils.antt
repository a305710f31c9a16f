-- ===== src/Utils.antt =====
-- The packages utils and utils/migration.
pub mod Migration
pub mod Examples
