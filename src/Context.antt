-- ===== src/Context.antt =====
-- The Docker contexts of the command line (api/context).
pub mod Metadata
pub mod Store
