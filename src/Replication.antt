-- ===== src/Replication.antt =====
-- The cluster: replicas of kvstore/ and loggers of logger/ over one sequence of committed entries.
-- Raft is the environment. It commits entries, and hands each of them to the state machine of each
-- member in the order of the commits, at any time; a process that panicked gets no more of them.
pub mod Submitted
pub mod Prefixes
pub mod Invariant
pub mod Agreement
pub mod Logs
use raft_demo.Base.{ℕ, suc, ◌≡◌, Bool, true, false, some, List, [], ◌∷◌, ◌++◌, get_elem?, update}
use raft_demo.Pb.{Log, Codec}
use raft_demo.Kvstore.Fsm.{Store, Outcome, response, failure, panicked, apply}
use raft_demo.Kvstore.Recovery.{IsLoggable}
use raft_demo.Logger.Fsm
use raft_demo.Logger.Fsm.{Logger}

-- A process of kvstore/: its store, how many entries it was handed, and whether it still runs.
pub record Replica : Type 0 where
  pub store : Store
  pub handed : ℕ
  pub running : Bool

-- A process of logger/.
pub record Recorder : Type 0 where
  pub logger : Logger
  pub handed : ℕ

pub record System : Type 0 where
  pub committed : List Log
  pub replica : ℕ → Replica
  pub recorder : ℕ → Recorder

abbrev pub goes_on : Outcome → Bool
goes_on (response text) = true
goes_on failure = true
goes_on panicked = false

module _ (pb : Codec) where
  -- the next entry, at a replica and at a logger
  unfoldable pub hand : Replica → Log → Replica
  hand r l =
      let (f, outcome) = apply pb r.store l in
      record { store = f; handed = suc r.handed; running = goes_on outcome }

  unfoldable pub note : Recorder → Log → Recorder
  note r l = record { logger = (Fsm.apply pb r.logger l).0; handed = suc r.handed }

  pub data Step (s : System) : System → Type 0 where
    commits : (l : Log) → IsLoggable pb l → Step s (record s { committed = s.committed ++ l ∷ [] })
    applies :
        (i : ℕ) (l : Log)
        → (s.replica i).running ≡ true
        → get_elem? s.committed (s.replica i).handed ≡ some l
        → Step s (record s { replica = update s.replica i (hand (s.replica i) l) })
    records :
        (i : ℕ) (l : Log)
        → get_elem? s.committed (s.recorder i).handed ≡ some l
        → Step s (record s { recorder = update s.recorder i (note (s.recorder i) l) })

  pub data Reach (s : System) : System → Type 0 where
    here : Reach s s
    next : {t u : System} → Reach s t → Step t u → Reach s u

-- the members as they start
abbrev pub init : (ℕ → Store) → (ℕ → Logger) → System
init stores loggers = record {
  committed = [];
  replica = λ i. record { store = stores i; handed = 0; running = true };
  recorder = λ i. record { logger = loggers i; handed = 0 };
}
