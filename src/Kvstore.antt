-- ===== src/Kvstore.antt =====
-- kvstore/: the in-memory key-value store, replicated by Raft.
pub mod Fsm
pub mod Recovery
pub mod Transfer
pub mod Sessions
pub mod Store
pub mod Server
pub mod Files
pub mod Setup
pub mod Compressed
pub mod Pods
pub mod Snapshot
pub mod Start
pub mod Options
pub mod Process
