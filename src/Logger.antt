-- ===== src/Logger.antt =====
-- logger/: a non-voting member of the cluster that records the committed commands.
pub mod Fsm
pub mod Transfer
pub mod Setup
pub mod Start
pub mod Serialize
pub mod Monitor
pub mod Process
