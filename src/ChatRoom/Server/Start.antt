-- ===== src/ChatRoom/Server/Start.antt =====
-- The start of a chat server: StartRaft and main of chatRoom/server/chatServer.go.
pub mod Launched
use raft_demo.Base.{
  ℕ, ◌*◌, Bool, true, false, not, Option, none, some, List, [], ◌∷◌, ◌++◌, Bytes, codes, get_or,
  ◌==◌, if◌then◌else◌,
}
use raft_demo.Base.Dict
use raft_demo.Base.Dict.{Dict}
use raft_demo.Go.Flags.{assign, parse}
use raft_demo.Node.{Config, in_memory, Library, bring_up, guard, ◌>>=◌}
use raft_demo.Membership.Requests.{join_request}
use raft_demo.ChatRoom.Server.{Server}

-- configRaft, with the LocalID that StartRaft sets
unfoldable pub config_raft : Bytes → Config
config_raft local_id = record {
  local_id = local_id;
  snapshot_interval = 5 * 60;
  snapshot_threshold = 1000024;
  log_level = codes "ERROR";
}

-- StartRaft, where `svr_id` is the value of the flag; `none` is an error
unfoldable pub start_raft : (lib : Library) → Bytes → Bool → Bytes → Bytes → Option lib.Node
start_raft lib svr_id enable_single local_id local_raft_addr =
    bring_up lib (config_raft local_id) local_raft_addr (codes "checkpoints/" ++ svr_id)
      (some in_memory) enable_single

-- NewServer
abbrev pub new_server : Server
new_server = record { clients = []; proposed = []; closed = false }

-- NewServerListenRJ: the addresses at which the server listens for joins, where `join_handler_addr`
-- is the flag that NewServer reads
unfoldable pub new_server_listen_rj : (join_handler_addr addr : Bytes) → Server × List Bytes
new_server_listen_rj join_handler_addr addr =
    (new_server, (if join_handler_addr == [] then addr ∷ [] else join_handler_addr ∷ addr ∷ []))

-- The values of the flags that main reads.
pub record Flags : Type 0 where
  pub svr_id : Bytes
  pub svr_port : Bytes
  pub raft_addr : Bytes
  pub join_addr : Bytes

-- What main has set up when it waits for its end.
pub record Process (lib : Library) : Type 0 where
  pub node : lib.Node
  pub server : Server
  pub requests : List (Bytes × Bytes)

-- the join request, if there is an address
unfoldable pub send_join_request : (Bytes → Bool) → Flags → Option (List (Bytes × Bytes))
send_join_request dials fl =
    if fl.join_addr == []
    then some []
    else if dials fl.join_addr
    then some ((fl.join_addr, join_request fl.svr_id fl.raft_addr true) ∷ [])
    else none

-- main up to its wait for a signal; `none` is a call of log.Fatalf or log.Fatalln
unfoldable pub main : (lib : Library) → (bound dials : Bytes → Bool) → Flags → Option (Process lib)
main lib bound dials fl = do
  _ ← guard (not (fl.svr_id == []))
  _ ← guard (bound fl.svr_port)
  ra ← start_raft lib fl.svr_id (fl.join_addr == []) fl.svr_id fl.raft_addr
  sent ← send_join_request dials fl
  some (record { node = ra; server = new_server; requests = sent })

-- init: the flags, each with its default
abbrev pub chat_flags : List (Bytes × Bytes)
chat_flags =
    (codes "id", [])
    ∷ (codes "port", codes ":11000")
    ∷ (codes "raft", codes ":12000")
    ∷ (codes "hjoin", [])
    ∷ (codes "join", [])
    ∷ []

abbrev pub value_of : Dict Bytes → Bytes → Bytes
value_of flags name = get_or (Dict.get flags name) []

-- main for the arguments of the command
unfoldable pub run_main :
    (lib : Library) → (bound dials : Bytes → Bool) → List Bytes → Option (Process lib)
run_main lib bound dials args = do
  flags ← parse (assign Dict.empty chat_flags) args
  main lib bound dials (record {
    svr_id = value_of flags (codes "id");
    svr_port = value_of flags (codes "port");
    raft_addr = value_of flags (codes "raft");
    join_addr = value_of flags (codes "join");
  })
