-- ===== src/Tests.antt =====
-- Tests of the models, and the theorems applied at concrete inputs.
pub mod Numbers
pub mod EdgeRuns
pub mod SystemRuns
pub mod FirmwareRuns
pub mod LoopRuns
pub mod ServoRuns
pub mod ScriptRuns
pub mod CloudSystemRuns
pub mod HostRuns
pub mod CloudRuns
pub mod StoreRuns
pub mod WorkerRuns
pub mod PlaneRuns
