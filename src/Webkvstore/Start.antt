-- ===== src/Webkvstore/Start.antt =====
-- The start of a node: New and Open of webkvstore/store/store.go, and main and join of
-- webkvstore/main.go.
pub mod Joins
use raft_demo.Base.{
  Bool, true, false, not, Option, none, some, List, [], ◌∷◌, ◌++◌, Bytes, codes, ◌==◌,
  if◌then◌else◌,
}
use raft_demo.Base.Dict
use raft_demo.Node.{Config, Stores, in_memory, in_file, Library, bring_up, guard, ◌>>=◌}
use raft_demo.Webkvstore.Store.{Store}

-- New
abbrev pub new : Store
new = record { m = Dict.empty; recov = [] }

-- raft.DefaultConfig, with the LocalID that Open sets
unfoldable pub config_of : Config → Bytes → Config
config_of standard local_id = record standard { local_id = local_id }

-- The calls of path/filepath, raft-boltdb and encoding/json: the path of a file in a directory,
-- whether a file can be opened as a BoltDB, and the text of the map of a join request.
pub record Calls : Type 0 where
  pub join_path : Bytes → Bytes → Bytes
  pub opens_bolt : Bytes → Bool
  pub marshal_join : (addr id : Bytes) → Bytes

-- What http.Post is given: the address and the body.
pub record Posted : Type 0 where
  pub url : Bytes
  pub body : Bytes

-- The values of the flags, and the arguments behind them.
pub record Flags : Type 0 where
  pub inmem : Bool
  pub http_addr : Bytes
  pub raft_addr : Bytes
  pub join_addr : Bytes
  pub node_id : Bytes
  pub args : List Bytes

-- the directory of main, if there is one
abbrev pub raft_dir_of : List Bytes → Option Bytes
raft_dir_of [] = none
raft_dir_of (raft_dir ∷ args) = if raft_dir == [] then none else some raft_dir

-- What main has set up when it waits for its end.
pub record Process (lib : Library) : Type 0 where
  pub store : Store
  pub node : lib.Node
  pub posted : Option Posted

module _ (lib : Library) (calls : Calls) where
  open lib use {default_config}
  open calls use {join_path, opens_bolt, marshal_join}

  -- the log store and the stable store of Open
  unfoldable pub stores_of : Bool → Bytes → Option Stores
  stores_of inmem raft_dir =
      if inmem
      then some in_memory
      else (let path = join_path raft_dir (codes "raft.db") in
          if opens_bolt path then some (in_file path) else none)

  -- Open; `none` is an error
  unfoldable pub open_store : Bool → (raft_dir raft_bind : Bytes) → Bool → Bytes → Option lib.Node
  open_store inmem raft_dir raft_bind enable_single local_id =
      bring_up lib (config_of default_config local_id) raft_bind raft_dir (stores_of inmem raft_dir)
        enable_single

  -- join, where `posts` says whether http.Post takes it; the status of the response is not read, and
  -- `none` is an error
  unfoldable pub join : (Posted → Bool) → (join_addr raft_addr node_id : Bytes) → Option Posted
  join posts join_addr raft_addr node_id =
      let posted : Posted = record {
        url = codes "http://" ++ join_addr ++ codes "/join";
        body = marshal_join raft_addr node_id;
      } in
      if posts posted then some posted else none

  abbrev pub join_if : (Posted → Bool) → Flags → Option (Option Posted)
  join_if posts fl =
      if fl.join_addr == []
      then some none
      else elim (join posts fl.join_addr fl.raft_addr fl.node_id) [
        | none ↦ none
        | some posted ↦ some (some posted)
      ]

  -- main up to its wait for a signal, where `serves` says whether the HTTP service starts; `none` is
  -- the end of the process
  unfoldable pub main : (serves : Bytes → Bool) → (Posted → Bool) → Flags → Option (Process lib)
  main serves posts fl = do
    raft_dir ← raft_dir_of fl.args
    ra ← open_store fl.inmem raft_dir fl.raft_addr (fl.join_addr == []) fl.node_id
    _ ← guard (serves fl.http_addr)
    posted ← join_if posts fl
    some (record { store = new; node = ra; posted = posted })
