-- ===== src/Compose/Dependencies.antt =====
-- local/compose/dependencies.go: the dependency graph of a project's services, its check for
-- cycles, and the concurrent walk over it.
pub mod Graph
pub mod Edges
pub mod Build
pub mod Fields
pub mod Walks
pub mod Cycles
pub mod Traversal
