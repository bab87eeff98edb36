-- ===== src/Diskstorage/Start.antt =====
-- The start of a replica: init and main of diskstorage/main.go, and StartRaft of
-- diskstorage/storage.go. Up to main they are those of kvstore/.
pub mod Joining
use raft_demo.Base.{Bool, Option, none, some, List, [], Bytes, ◌==◌, if◌then◌else◌}
use raft_demo.Node.{Config, Library, guard, ◌>>=◌}
use raft_demo.Kvstore.Files.{Stat}
use raft_demo.Kvstore.Pods.{Pod}
use raft_demo.Kvstore.Start.{Settings}
use raft_demo.Kvstore.Server.{Server, start_server}
use raft_demo.Diskstorage.Store.{Opened, new}

-- configRaft
unfoldable pub config_raft : Bytes → Config
config_raft local_id = raft_demo.Kvstore.Start.config_raft local_id

-- StartRaft
unfoldable pub start_raft : (lib : Library) → Bool → Bytes → Bytes → Option lib.Node
start_raft lib enable_single local_id local_raft_addr =
    raft_demo.Kvstore.Start.start_raft lib enable_single local_id local_raft_addr

-- init
unfoldable pub init : Bytes → Bytes → Option (List Pod) → Option Settings
init pod_ip pod_name listed = raft_demo.Kvstore.Start.init pod_ip pod_name listed

-- sendJoinRequest
unfoldable pub send_join_request : (Bytes → Bool) → Settings → Option (List (Bytes × Bytes))
send_join_request dials st = raft_demo.Kvstore.Start.send_join_request dials st

-- What main has set up when it waits for its end, as for kvstore.
pub record Process (lib : Library) : Type 0 where
  pub opened : Opened
  pub node : lib.Node
  pub server : Server
  pub requests : List (Bytes × Bytes)

-- main up to its wait for a signal, without the profiles; `content` and `log` are for
-- New, `throughput` is for NewServer.
unfoldable pub main :
    (lib : Library)
    → (bound dials : Bytes → Bool) → (content : Option Bytes) → (logfolder : Bytes)
    → (log throughput : Stat) → Settings
    → Option (Process lib)
main lib bound dials content logfolder log throughput st = do
  opened ← new bound st.join_handler_addr content logfolder log
  _ ← guard (bound st.server_port)
  ra ← start_raft lib (st.join_addr == []) st.server_id st.raft_addr
  svr ← start_server throughput
  sent ← (if st.join_addr == [] then some [] else send_join_request dials st)
  some (record { opened = opened; node = ra; server = svr; requests = sent })
