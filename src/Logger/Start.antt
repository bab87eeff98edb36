-- ===== src/Logger/Start.antt =====
-- The start of one logger of a logger process: NewLogger, StartRaft and createFile of
-- logger/logger.go, and sendJoinRequest and the goroutine of main of logger/main.go.
pub mod Nonvoter
use raft_demo.Base.{ℕ, ◌*◌, ◌^◌, Bool, false, Option, none, some, ◌++◌, Bytes, codes, if◌then◌else◌}
use raft_demo.Go.Files.{File}
use raft_demo.Kvstore.Files.{Stat}
use raft_demo.Node.{Config, in_memory, Library, bring_up, ◌>>=◌}
use raft_demo.Membership.Requests.{join_request}
use raft_demo.Logger.Fsm.{Logger}
use raft_demo.Logger.Setup.{Config as Settings, start}

-- configRaft, with the LocalID that StartRaft sets
unfoldable pub config_raft : Bytes → Config
config_raft local_id = record {
  local_id = local_id;
  snapshot_interval = 24 * 3600;
  snapshot_threshold = 2 ^ 63;
  log_level = codes "WARN";
}

-- createFile
unfoldable pub create_file : Stat → Option File
create_file stat = raft_demo.Kvstore.Files.create_file stat

-- NewLogger, for what os.Stat says of a name: the logger, and its throughput file; `none` is a call
-- of log.Fatalln
unfoldable pub new_logger : (Bytes → Stat) → (logfolder id : Bytes) → Option (Logger × File)
new_logger stats logfolder id = do
  log_file ← create_file (stats (logfolder ++ codes "log-file-" ++ id ++ codes ".log"))
  throughput ← create_file (stats (id ++ codes "-throughput.out"))
  some (record { log_file = log_file; req = 0 }, throughput)

-- StartRaft; `none` is an error
unfoldable pub start_raft : (lib : Library) → Bytes → Bytes → Option lib.Node
start_raft lib local_id raft_addr =
    bring_up lib (config_raft local_id) raft_addr (codes "checkpoints/" ++ local_id)
      (some in_memory) false

-- sendJoinRequest; `none` is an error
unfoldable pub send_join_request : (Bytes → Bool) → Bytes → Bytes → Bytes → Option (Bytes × Bytes)
send_join_request dials log_id raft_addr join_addr =
    if dials join_addr then some (join_addr, join_request log_id raft_addr false) else none

-- What the goroutine has set up: the logger, its throughput file, its node, and the request it sent.
pub record Started (lib : Library) : Type 0 where
  pub logger : Logger
  pub throughput : File
  pub node : lib.Node
  pub request : Bytes × Bytes

-- The goroutine that main starts for index j; `none` is a panic or a call of log.Fatalf.
unfoldable pub launch :
    (lib : Library)
    → (Bytes → Bool)
    → (Bytes → Stat)
    → (logfolder : Bytes) → Settings
    → ℕ
    → Option (Started lib)
launch lib dials stats logfolder st j = do
  i ← start st j
  made ← new_logger stats logfolder i.log_id
  ra ← start_raft lib i.log_id i.raft_addr
  sent ← send_join_request dials i.log_id i.raft_addr i.join_addr
  some (record { logger = made.0; throughput = made.1; node = ra; request = sent })
