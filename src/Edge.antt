-- ===== src/Edge.antt =====
-- The edge node (Software/edge-orchestrator).
pub mod Kinematics
pub mod Trajectory
pub mod Frame
pub mod Node
pub mod Lifespan
pub mod Gateway
pub mod Daemon
pub mod Store
pub mod System
