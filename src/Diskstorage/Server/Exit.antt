-- ===== src/Diskstorage/Server/Exit.antt =====
-- The end of a replica of diskstorage/server.go, and what the goroutine of Raft that applies entries
-- does before and after it. Exit closes the storage file first.
use raft_demo.Base.{◌≡◌, Bool, true, false, none, some, List, Bytes, if◌then◌else◌, arith}
use raft_demo.Pb.{Command, Log, Codec}
use raft_demo.Diskstorage.Fsm.{
  Store, Outcome, response, failure, panicked, dispatch, log_command, apply,
}
use raft_demo.Kvstore.Sessions.Outgoing.{Session}
use raft_demo.Kvstore.Server.Exit.{disconnect_all}

-- What Exit reads and changes: the store, whether its two files are open, whether Shutdown was
-- called, and the sessions.
pub record Running : Type 0 where
  pub store : Store
  pub local_open : Bool
  pub log_open : Bool
  pub shut_down : Bool
  pub clients : List Session

-- Exit
unfoldable pub exit : Running → Running
exit svr = record {
  store = svr.store;
  local_open = false;
  log_open = (if svr.store.logging then false else svr.log_open);
  shut_down = true;
  clients = disconnect_all svr.clients;
}

-- the switch of Apply: with a closed file WriteAt and ReadAt have errors, at which applySet and
-- applyGet panic
unfoldable pub dispatch_running : Running → Command → Store × Outcome
dispatch_running svr c = if svr.local_open then dispatch svr.store c else (svr.store, panicked)

-- Apply; a write to a closed log file has an error, which is dropped
unfoldable pub apply_running : Codec → Running → Log → Running × Outcome
apply_running pb svr l = elim (pb.unmarshal l.bytes) [
  | none ↦ (svr, failure)
  | some c ↦
      let (f, outcome) = dispatch_running svr c in
      (record svr { store = (if svr.log_open then log_command pb f l.index c else f) }, outcome)
]

-- Before Exit an entry is applied as by the state machine alone; behind Exit an entry that the state
-- machine answers makes the process panic.
pub apply_running-exit :
    (pb : Codec) (svr : Running) (l : Log) (text : Bytes)
    → svr.local_open ≡ true
    → svr.log_open ≡ true
    → (apply pb svr.store l).1 ≡ response text
    → ((apply_running pb svr l).0.store ≡ (apply pb svr.store l).0)
      × ((apply_running pb svr l).1 ≡ response text)
      × ((apply_running pb (exit svr) l).1 ≡ panicked)
unfolding apply_running dispatch_running exit apply
apply_running-exit pb svr l text here logs answered = ground (arith, here, logs, answered)
