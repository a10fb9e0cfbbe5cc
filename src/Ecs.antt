-- ===== src/Ecs.antt =====
-- The back end for Amazon ECS (ecs).
pub mod Types
pub mod Limits
pub mod Gpu
pub mod Environment
pub mod Wait
