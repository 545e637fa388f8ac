-- ===== src/Host.antt =====
-- The host application (Hardware/host_app).
pub mod Kinematics
pub mod Conductor
pub mod Scripts
pub mod Store
