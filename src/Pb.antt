-- ===== src/Pb.antt =====
-- The packages journey/pb, golang/protobuf and hashicorp/raft, as far as the program uses them.
mod Defs
pub mod Sample
pub use Defs.*
