-- ===== src/Webkvstore/Snapshot.antt =====
-- webkvstore/store/store.go: Snapshot, Persist and Restore. The JSON of a map[string]string is a
-- parameter with the laws of the other store's.
pub mod Values
use raft_demo.Base.{Bool, true, false, Option, none, some, Bytes}
use raft_demo.Base.Dict
use raft_demo.Base.Dict.{Dict}
use raft_demo.Kvstore.Snapshot.{Json, Range, Sink, Persisted, clone}
use raft_demo.Webkvstore.Store.{Store}

-- Snapshot: a new map, into which the entries are copied in the order of a range
unfoldable pub snapshot : Range → Store → Dict Bytes
snapshot range f = clone (range.entries f.m) Dict.empty

-- Persist, which is that of kvstore/fsm.go
unfoldable pub persist : Json → Dict Bytes → Sink → Persisted
persist json store sink = raft_demo.Kvstore.Snapshot.persist json store sink

-- Restore; the second part says that there was no error
unfoldable pub restore : Json → Store → Bytes → Store × Bool
restore json f rc = elim (json.decode rc) [
  | none ↦ (f, false)
  | some o ↦ (record f { m = o }, true)
]
