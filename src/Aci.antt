-- ===== src/Aci.antt =====
-- The back end for Azure container instances (aci).
pub mod Ports
pub mod Volumes
