-- ===== src/Webkvstore.antt =====
-- webkvstore/: a replicated key-value store behind HTTP.
pub mod Interface
pub mod Store
pub mod Service
pub mod Snapshot
pub mod Start
pub mod Process
