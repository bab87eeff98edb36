-- ===== src/Diskstorage/Process.antt =====
-- main of diskstorage/main.go as a whole, with its init, as Kvstore/Options and Kvstore/Process are
-- for kvstore/.
use raft_demo.Base.{
  Bool, true, false, not, Option, none, some, List, [], ◌∷◌, ◌++◌, Bytes, codes, ◌==◌,
}
use raft_demo.Base.Dict
use raft_demo.Go.Flags.{assign, parse}
use raft_demo.Pb.{Log, Codec}
use raft_demo.Node.{Library, guard, ◌>>=◌}
use raft_demo.Kvstore.Pods.{Pod}
use raft_demo.Kvstore.Options.{Options, own_flags, value_of, addresses_of, options_of}
use raft_demo.Kvstore.Process.{World, profiled}
use raft_demo.Kvstore.Server.{Event}
use raft_demo.Kvstore.Server.Exit.{sessions}
use raft_demo.Diskstorage.Fsm.{Store, panicked, apply}
use raft_demo.Diskstorage.Server.{load_env_variables, listen}
use raft_demo.Diskstorage.Server.Exit.{Running, exit}
use raft_demo.Diskstorage.Start.{Process, main}

-- parseIPsFromArgsConfig, which has no flag for state requests
abbrev pub parse_ips_from_args_config : List (Bytes × Bytes)
parse_ips_from_args_config =
    (codes "id", [])
    ∷ (codes "port", codes ":11000")
    ∷ (codes "raft", codes ":12000")
    ∷ (codes "join", [])
    ∷ (codes "hjoin", [])
    ∷ []

-- init, for the constant staticIPs, which is false
unfoldable pub init :
    Bool → (Bytes → Option Bytes) → Option (List Pod) → List Bytes → Option Options
init true lookup_env listed args = do
  flags ← parse (assign Dict.empty (parse_ips_from_args_config ++ own_flags)) args
  _ ← guard (not (value_of flags (codes "id") == []))
  some (options_of (addresses_of flags) flags)
init false lookup_env listed args = do
  env ← load_env_variables lookup_env
  settings ← raft_demo.Diskstorage.Start.init env.pod_ip env.pod_name listed
  flags ← parse (assign Dict.empty own_flags) args
  _ ← guard (not (settings.server_id == []))
  some (options_of settings flags)

-- the entries that Raft applies; `none` is a panic, which ends the process
unfoldable pub apply_all : Codec → Store → List Log → Option Store
apply_all pb f [] = some f
apply_all pb f (l ∷ ls) =
    let (f', outcome) = apply pb f l in elim outcome [ panicked ↦ none | _ ↦ apply_all pb f' ls ]

-- main, for the bytes of the storage file, where it can be opened, the events that Listen and
-- monitor see until the signal, and the entries that Raft applies; `none` is a panic or a call of
-- log.Fatal
unfoldable pub run_main :
    Library → Codec → World → Option Bytes → Options → List Event → List Log → Option Running
run_main lib pb world content opts events entries = do
  _ ← profiled world opts.cpuprofile
  p ←
      main lib world.bound world.dials content opts.logfolder world.log world.throughput
        opts.settings
  svr ← listen p.server events
  f ← apply_all pb p.opened.store entries
  _ ← profiled world opts.memprofile
  some (
      exit (record {
        store = f;
        local_open = true;
        log_open = true;
        shut_down = false;
        clients = sessions svr.clients;
      }))
