-- ===== src/Compose.antt =====
-- The local backend of compose (local/compose).
pub mod Util
pub mod Types
pub mod Containers
pub mod Convergence
pub mod Creation
pub mod Mounts
pub mod Trace
pub mod Removal
pub mod Recreation
pub mod Dependencies
