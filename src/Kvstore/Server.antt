-- ===== src/Kvstore/Server.antt =====
-- kvstore/server.go: the requests of all clients, handled one after the other, and the counter of
-- the throughput monitor.
pub mod Throughput
pub mod Validate
pub mod Exit
pub mod Pipeline
use raft_demo.Base.{
  ℕ, ◌+◌, ◌%◌, ◌^◌, Bool, true, false, Option, none, some, List, [], ◌∷◌, ◌++◌, Bytes, codes,
  newline, leb, if◌then◌else◌, ◌==◌, length, get_elem?, get_or, dash, ◌||◌,
}
use raft_demo.Go.Strings.{trim_suffix, split}
use raft_demo.Kvstore.Files.{Stat, create_file, line}
use raft_demo.Go.Files.{File, write}
use raft_demo.Kvstore.Sessions.{Request}
use raft_demo.Kvstore.Store.{
  Raft, Proposed, ignored, failed, unrecognized, replied, crashed, propose,
}

-- The fields of Server: the addresses of the clients' sessions, the counter (a uint64), the throughput
-- file, the datagrams that were sent, and the error log.
pub record Server : Type 0 where
  pub clients : List Bytes
  pub req : ℕ
  pub throughput : File
  pub sent : List (Bytes × Bytes)
  pub errors : ℕ

-- NewServer, over its throughput file
abbrev pub new_server : File → Server
new_server fd = record { clients = []; req = 0; throughput = fd; sent = []; errors = 0 }

-- NewServer, for what os.Stat says of the name of the throughput file; `none` is a call of
-- log.Fatalln
unfoldable pub start_server : Stat → Option Server
start_server stat = elim (create_file stat) [ none ↦ none | some fd ↦ some (new_server fd) ]

-- SendUDP, where `dials` says whether net.Dial takes an address. Its error is dropped: then the
-- connection is nil, and its use is a panic.
unfoldable pub send_udp : (Bytes → Bool) → Server → Bytes → Bytes → Option Server
send_udp dials svr address message =
    if dials address then some (record svr { sent = svr.sent ++ (address, message) ∷ [] }) else none

-- what a proposal leaves in the server, and whether the process goes on
unfoldable pub after_proposal : (Bytes → Bool) → Server → Proposed → Option Server
after_proposal dials svr ignored = some svr
after_proposal dials svr failed = some (record svr { errors = svr.errors + 1 })
after_proposal dials svr unrecognized = some (record svr { errors = svr.errors + 1 })
after_proposal dials svr (replied address message) = send_udp dials svr address message
after_proposal dials svr crashed = none

abbrev pub count_request : Option Server → Option Server
count_request none = none
count_request (some svr) = some (record svr { req = (svr.req + 1) % 2 ^ 64 })

-- HandleRequest; `none` is a panic, which ends the process
unfoldable pub handle_request : (Bytes → Bool) → Raft → Server → Request → Option Server
handle_request dials raft svr cmd =
    let bytes = trim_suffix cmd.command (newline ∷ []) in
    count_request (after_proposal dials svr (propose raft bytes cmd.ip))

-- Join: a session for the connection
unfoldable pub join_client : Server → Bytes → Server
join_client svr connection = record svr { clients = svr.clients ++ connection ∷ [] }

-- one tick of monitor: the counter is swapped with 0, and written where the
-- descriptor stands, over old bytes if there are any
unfoldable pub tick : Server → Server
tick svr = record svr { req = 0; throughput = write svr.throughput (line svr.req) }

-- What the goroutines of the server do, in the order in which they do it: Listen takes a request
-- or a connection, monitor sees its timer; at a request Raft and the
-- network answer as their state is then.
pub data Event : Type 0 where
  incoming : (Bytes → Bool) → Raft → Request → Event
  joins : Bytes → Event
  timer : Event

-- Listen and monitor over the events; `none` where the process ended by a panic
unfoldable pub listen : Server → List Event → Option Server
listen svr [] = some svr
listen svr (incoming dials raft cmd ∷ es) = elim (handle_request dials raft svr cmd) [
  | none ↦ none
  | some svr' ↦ listen svr' es
]
listen svr (joins connection ∷ es) = listen (join_client svr connection) es
listen svr (timer ∷ es) = listen (tick svr) es
