-- ===== src/Cloud.antt =====
-- The cloud layer (Cloud/src).
pub mod Telemetry
pub mod System
pub mod Sync
pub mod Conductor
pub mod Plane
pub mod Database
