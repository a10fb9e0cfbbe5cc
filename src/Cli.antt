-- ===== src/Cli.antt =====
-- The command line.
pub mod Metrics
