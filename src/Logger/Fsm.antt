-- ===== src/Logger/Fsm.antt =====
-- logger/fsm.go: the state machine of a logger process.
pub mod Copies
use raft_demo.Base.{
  ℕ, ◌+◌, ◌%◌, ◌^◌, Bool, true, false, Option, none, some, List, [], ◌∷◌, Bytes, length,
}
use raft_demo.Go.Binary.{put_int32}
use raft_demo.Go.Files.{File, write}
use raft_demo.Pb.{Command, Log, Codec}

-- The fields of Logger that the state machine writes; req is a uint64.
pub record Logger : Type 0 where
  pub log_file : File
  pub req : ℕ

-- what Apply returns: the error of Unmarshal, or nil, since writes do not fail here
pub data Applied : Type 0 where
  failure logged : Applied

unfoldable pub record_command : Codec → Logger → ℕ → Command → Logger
record_command pb s index c =
    let serialized = (pb.marshal (record c { id = index })).0 in
    record s {
      log_file = write (write s.log_file (put_int32 (length serialized))) serialized;
      req = (s.req + 1) % 2 ^ 64;
    }

-- Apply; monitoringThroughtput is true
unfoldable pub apply : Codec → Logger → Log → Logger × Applied
apply pb s l = elim (pb.unmarshal l.bytes) [
  | none ↦ (s, failure)
  | some c ↦ (record_command pb s l.index c, logged)
]

-- the committed entries in their order
unfoldable pub run : Codec → Logger → List Log → Logger
run pb s [] = s
run pb s (l ∷ ls) = run pb (apply pb s l).0 ls

-- Snapshot and Restore: nil for the snapshot, and the logger as it was; neither has an error
unfoldable pub snapshot : Logger → Option Bytes × Bool
snapshot s = (none, true)

unfoldable pub restore : Logger → Bytes → Logger × Bool
restore s rc = (s, true)
