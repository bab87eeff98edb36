-- ===== src/Diskstorage/Store.antt =====
-- diskstorage/storage.go: New, and the functions that are those of kvstore/store.go.
use raft_demo.Base.{Bool, true, false, Option, none, some, [], Bytes, if◌then◌else◌, ◌==◌}
use raft_demo.Go.Files.{File}
use raft_demo.Kvstore.Files.{Stat}
use raft_demo.Kvstore.Store.{Raft, Proposed}
use raft_demo.Node.{◌>>=◌}
use raft_demo.Kvstore.Setup.{listen_at}
use raft_demo.Membership
use raft_demo.Membership.{Cluster}
use raft_demo.Diskstorage.Fsm.{Store}

-- createFile
unfoldable pub create_file : Stat → Option File
create_file stat = raft_demo.Kvstore.Files.create_file stat

-- What New opens: the store, and where ListenRaftJoins listens.
pub record Opened : Type 0 where
  pub store : Store
  pub joins_at : Option Bytes

-- New without its listener, for the bytes of the storage file, where it can be opened, and for what os.Stat says of the
-- log file; `none` is an error or a call of log.Fatalln
unfoldable pub new_store : Option Bytes → (logfolder : Bytes) → Stat → Option Store
new_store none logfolder stat = none
new_store (some content) logfolder stat =
    if logfolder == []
    then some (record {
      local = content;
      logging = false;
      log_file = record { content = []; offset = 0 };
    })
    else elim (create_file stat) [
      | none ↦ none
      | some fd ↦ some (record { local = content; logging = true; log_file = fd })
    ]

-- New; the listener binds its address in a goroutine, which is taken here as done where New returns
unfoldable pub new :
    (bound : Bytes → Bool)
    → (join_handler_addr : Bytes) → Option Bytes
    → (logfolder : Bytes) → Stat
    → Option Opened
new bound join_handler_addr content logfolder stat = do
  joins_at ← listen_at bound join_handler_addr
  s ← new_store content logfolder stat
  some (record { store = s; joins_at = joins_at })

-- Propose
unfoldable pub propose : Raft → Bytes → Bytes → Proposed
propose raft msg client_ip = raft_demo.Kvstore.Store.propose raft msg client_ip

-- JoinRaft
unfoldable pub join_raft : (c : Cluster) → c.State → Bytes → Bytes → Bool → c.State × Bool
join_raft c s node_id addr voter = Membership.join_raft c s node_id addr voter

-- one round of ListenRaftJoins
unfoldable pub listen_raft_joins : (c : Cluster) → c.State → Bytes → Option c.State
listen_raft_joins c s stream = Membership.handle_join c s stream
