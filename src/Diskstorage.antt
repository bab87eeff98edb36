-- ===== src/Diskstorage.antt =====
-- diskstorage/: a storage server that keeps its values in a file.
pub mod Fsm
pub mod Store
pub mod Server
pub mod Start
pub mod Process
