-- ===== src/Kvstore/Server/Exit.antt =====
-- The end of a replica: Exit of kvstore/server.go, which main calls behind cancel, and what the
-- goroutine of Raft that applies entries does before and after it. Shutdown of hashicorp/raft
-- returns a future, which Exit does not wait for, so the goroutine may still be at work.
pub mod Late
use raft_demo.Base.{ℕ, Bool, true, false, List, [], ◌∷◌, Bytes, if◌then◌else◌}
use raft_demo.Pb.{Log, Codec}
use raft_demo.Kvstore.Fsm.{Store, Outcome, panicked, apply}
use raft_demo.Kvstore.Sessions.Outgoing.{Session, new_session, disconnect}

-- What Exit reads and changes: the store, whether its log file is open, whether Shutdown was called,
-- and the sessions.
pub record Running : Type 0 where
  pub store : Store
  pub log_open : Bool
  pub shut_down : Bool
  pub clients : List Session

-- the sessions of connections from these addresses, in the order of Join
unfoldable pub sessions : List Bytes → List Session
sessions [] = []
sessions (address ∷ addresses) = new_session address ∷ sessions addresses

unfoldable pub disconnect_all : List Session → List Session
disconnect_all [] = []
disconnect_all (client ∷ clients) = disconnect client ∷ disconnect_all clients

-- Exit
unfoldable pub exit : Running → Running
exit svr = record {
  store = svr.store;
  log_open = (if svr.store.logging then false else svr.log_open);
  shut_down = true;
  clients = disconnect_all svr.clients;
}

-- Apply, for a log file that may be closed: then both writes fail, and the errors are dropped.
unfoldable pub apply_running : Codec → Running → Log → Running × Outcome
apply_running pb svr l =
    let (f, outcome) = apply pb svr.store l in
    (
      record svr {
        store = (if svr.log_open then f else record f { log_file = svr.store.log_file });
      },
      outcome,
    )

-- the entries that are applied one after the other, up to a panic
unfoldable pub run_running : Codec → Running → List Log → Running
run_running pb svr [] = svr
run_running pb svr (l ∷ ls) =
    let (svr', outcome) = apply_running pb svr l in
    elim outcome [ panicked ↦ svr' | _ ↦ run_running pb svr' ls ]
