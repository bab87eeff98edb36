-- ===== src/Recovery.antt =====
-- recovery/: a client that fetches the log of a replica and installs it.
pub mod State
pub mod Requester
