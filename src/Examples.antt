-- ===== src/Examples.antt =====
-- Tests by evaluation, and the theorems at concrete inputs.
mod Buffers
mod Commands
mod Ends
mod Texts
mod Logs
mod Requests
mod Chat
mod Starts
mod Nodes
mod Storage
mod Web
mod Setup
mod Cluster
mod Clients
