-- ===== src/Kvstore/Start.antt =====
-- The start of a replica: init and main of kvstore/main.go, and StartRaft of kvstore/store.go.
pub mod Joining
pub mod Evicted
use raft_demo.Base.{
  ℕ, ◌*◌, ◌^◌, Bool, true, false, Option, none, some, List, [], ◌∷◌, ◌++◌, Bytes, codes, get_elem?,
  if◌then◌else◌, ◌==◌,
}
use raft_demo.Go.Strings.{split}
use raft_demo.Membership.Requests.{join_request}
use raft_demo.Node.{Config, in_memory, Library, bring_up, guard, ◌>>=◌}
use raft_demo.Kvstore.Files.{Stat}
use raft_demo.Kvstore.Fsm.{Store}
use raft_demo.Kvstore.Pods.{Pod, Role, listens, joins, request_kube_config}
use raft_demo.Kvstore.Server.{Server, start_server}
use raft_demo.Kvstore.Setup.{Opened, new}

-- configRaft, with the LocalID that StartRaft sets: 24 hours, and 2 << 62
unfoldable pub config_raft : Bytes → Config
config_raft local_id = record {
  local_id = local_id;
  snapshot_interval = 24 * 3600;
  snapshot_threshold = 2 ^ 63;
  log_level = codes "INFO";
}

-- StartRaft; `none` is an error
unfoldable pub start_raft : (lib : Library) → Bool → Bytes → Bytes → Option lib.Node
start_raft lib enable_single local_id local_raft_addr =
    bring_up lib (config_raft local_id) local_raft_addr (codes "checkpoints/" ++ local_id)
      (some in_memory) enable_single

-- The global variables that init sets.
pub record Settings : Type 0 where
  pub server_id : Bytes
  pub server_port : Bytes
  pub raft_addr : Bytes
  pub join_addr : Bytes
  pub join_handler_addr : Bytes

abbrev pub settings_of : Bytes → Bytes → Role → Settings
settings_of tag pod_ip (listens addr) = record {
  server_id = codes "node" ++ tag;
  server_port = codes ":11000";
  raft_addr = pod_ip ++ codes ":12000";
  join_addr = [];
  join_handler_addr = addr;
}
settings_of tag pod_ip (joins addr) = record {
  server_id = codes "node" ++ tag;
  server_port = codes ":11000";
  raft_addr = pod_ip ++ codes ":12000";
  join_addr = addr;
  join_handler_addr = [];
}

-- init in Kubernetes; `none` is the panic at an address of fewer than four parts, or the end of the
-- process
unfoldable pub init : Bytes → Bytes → Option (List Pod) → Option Settings
init pod_ip pod_name listed = do
  tag ← get_elem? (split pod_ip b'.') 3
  role ← request_kube_config pod_name listed
  some (settings_of tag pod_ip role)

-- What main has set up when it waits for its end: what New opens, the node, the server, and the
-- requests that it has sent, each with its address.
pub record Process (lib : Library) : Type 0 where
  pub opened : Opened
  pub node : lib.Node
  pub server : Server
  pub requests : List (Bytes × Bytes)

-- sendJoinRequest, where `dials` says whether net.Dial takes an address; `none` is an error
unfoldable pub send_join_request : (Bytes → Bool) → Settings → Option (List (Bytes × Bytes))
send_join_request dials st =
    if dials st.join_addr
    then some ((st.join_addr, join_request st.server_id st.raft_addr true) ∷ [])
    else none

-- main up to its wait for a signal, without the profiles: `bound` says whether net.Listen takes an
-- address, `log` and `throughput` are what os.Stat says of the two files, and the number is
-- that of New; `none` is a call of log.Fatalf
unfoldable pub main :
    (lib : Library)
    → (bound dials : Bytes → Bool) → (recov_handler_addr logfolder : Bytes)
    → (log throughput : Stat) → ℕ
    → Settings
    → Option (Process lib)
main lib bound dials recov_handler_addr logfolder log throughput n st = do
  opened ← new bound st.join_handler_addr recov_handler_addr logfolder log n
  _ ← guard (bound st.server_port)
  ra ← start_raft lib (st.join_addr == []) st.server_id st.raft_addr
  svr ← start_server throughput
  sent ← (if st.join_addr == [] then some [] else send_join_request dials st)
  some (record { opened = opened; node = ra; server = svr; requests = sent })
