-- ===== src/Kvstore/Process.antt =====
-- main of kvstore/main.go as a whole: from the values that init leaves, over the time in which it
-- waits for a signal, to its end.
pub mod Kept
use raft_demo.Base.{
  ℕ, Bool, true, false, Option, none, some, List, [], ◌∷◌, Bytes, ◌==◌, ◌||◌, if◌then◌else◌,
}
use raft_demo.Pb.{Log, Codec}
use raft_demo.Node.{Library, guard, ◌>>=◌}
use raft_demo.Kvstore.Files.{Stat}
use raft_demo.Kvstore.Fsm.{Store, Outcome, panicked, apply}
use raft_demo.Kvstore.Server.{Event, listen}
use raft_demo.Kvstore.Server.Exit.{Running, sessions, exit}
use raft_demo.Kvstore.Start.{Process, main}
use raft_demo.Kvstore.Options.{Options}

-- What the system answers: whether os.Create, net.Listen and net.Dial take a name or an address, and
-- what os.Stat says of the log file and of the throughput file.
pub record World : Type 0 where
  pub creates : Bytes → Bool
  pub bound : Bytes → Bool
  pub dials : Bytes → Bool
  pub log : Stat
  pub throughput : Stat

-- a profile that is asked for needs its file
abbrev pub profiled : World → Bytes → Option (Unit {0})
profiled world name = guard (name == [] || world.creates name)

-- the entries that Raft applies; `none` is a panic, which ends the process
unfoldable pub apply_all : Codec → Store → List Log → Option Store
apply_all pb f [] = some f
apply_all pb f (l ∷ ls) =
    let (f', outcome) = apply pb f l in elim outcome [ panicked ↦ none | _ ↦ apply_all pb f' ls ]

-- The process behind its set-up: the signal comes when Listen and monitor have seen these events and
-- Raft has applied these entries. Then main writes a profile, cancels the context, and calls Exit.
unfoldable pub terminate :
    Codec
    → World
    → (memprofile : Bytes) → Store
    → raft_demo.Kvstore.Server.Server
    → List Event
    → List Log
    → Option Running
terminate pb world memprofile store server events entries = do
  svr ← listen server events
  f ← apply_all pb store entries
  _ ← profiled world memprofile
  some (
      exit
        (record { store = f; log_open = true; shut_down = false; clients = sessions svr.clients }))

-- main, with the number of New; `none` is a panic or a call of log.Fatal
unfoldable pub run_main :
    Library → Codec → World → ℕ → Options → List Event → List Log → Option Running
run_main lib pb world n opts events entries = do
  _ ← profiled world opts.cpuprofile
  p ←
      main lib world.bound world.dials opts.recov_handler_addr opts.logfolder world.log
        world.throughput n opts.settings
  terminate pb world opts.memprofile p.opened.store p.server events entries
