-- ===== src/Client.antt =====
-- client/: the sequential client, which sends each command to every replica.
pub mod Commands
pub mod Kube
pub mod Connect
pub mod Main
pub mod Start
pub mod Readers
