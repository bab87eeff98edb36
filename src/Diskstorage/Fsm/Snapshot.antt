-- ===== src/Diskstorage/Fsm/Snapshot.antt =====
-- Snapshot, Persist and Restore of diskstorage/fsm.go, which keep nothing of the storage file.
use raft_demo.Base.{Bool, true, Bytes, []}
use raft_demo.Diskstorage.Fsm.{Store}

-- Snapshot
unfoldable pub snapshot : Store → Bytes
snapshot f = []

-- Persist: the bytes that the sink has been given; it is neither closed nor cancelled, and there is
-- no error
unfoldable pub persist : Bytes → Bytes × Bool
persist store = ([], true)

-- Restore; the second part says that there was no error
unfoldable pub restore : Store → Bytes → Store × Bool
restore f rc = (f, true)
