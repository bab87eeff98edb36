-- ===== src/Examples/Ends.antt =====
-- The ends of the processes.
use raft_demo.Base.{
  ◌≡◌, ◌<◌, ◌↔◌, refl, true, false, none, some, List, [], ◌∷◌, ◌++◌, newline, codes, All, arith,
  ◌==◌,
}
use raft_demo.Base.Dict
use raft_demo.Pb.{Log}
use raft_demo.Pb.Sample.{sample_codec}
use raft_demo.Frames.{frames}
use raft_demo.Recovery.State.{install_commands}
use raft_demo.Kvstore.Files.{new_file, not_exist, create_file}
use raft_demo.Kvstore.Fsm.{Store, run, dispatch, apply as apply_kv}
use raft_demo.Kvstore.Fsm.Logged.{logged}
use raft_demo.Kvstore.Sessions.Outgoing.{Session, broadcasts}
use raft_demo.Kvstore.Sessions.Outgoing.Unsent.{IsUnsent, broadcasts-IsUnsent}
use raft_demo.Kvstore.Server.Exit.{Running, sessions, exit, run_running}
use raft_demo.Kvstore.Server.Exit.Late.{run_running-exit}
use raft_demo.Kvstore.Options.{Options}
use raft_demo.Kvstore.Process.{World, apply_all, run_main}
use raft_demo.Kvstore.Process.Kept.{IsClosed, fresh_store, run_main-frames}
use raft_demo.Kvstore.Server.{
  Server, Event, joins, timer, listen, join_client, tick, new_server, start_server,
}
use raft_demo.Kvstore.Setup.{new, new_store, listen_at, pre_initialize, init_value}
use raft_demo.Kvstore.Start.{Process, main, start_raft, send_join_request, config_raft}
use raft_demo.Membership.Requests.{join_request}
use raft_demo.Node.{bring_up}
use raft_demo.Examples.Logs.{start, entry, put_a}
use raft_demo.Examples.Starts.{sample_library, everywhere, found}
use raft_demo.Logger.Process.{Instances, running, started, made, stop}
use raft_demo.Logger.Process.Stopped.{stop-Reach}

abbrev replica : Running
replica = record { store = start; log_open = true; shut_down = false; clients = [] }

abbrev set_a : Log
set_a = entry 1 put_a

broadcasts-IsUnsent_example :
    (clients : List Session) × (broadcasts
        (sessions (codes "10.0.0.7:5000" ∷ []))
        (codes "hello" ∷ codes "again" ∷ [])
      ≡ some clients)
    × All IsUnsent (exit (record replica { clients = clients })).clients
broadcasts-IsUnsent_example =
    broadcasts-IsUnsent replica (codes "10.0.0.7:5000" ∷ []) (codes "hello" ∷ codes "again" ∷ [])
      (omega arith)

run_running-exit_example :
    ((run_running sample_codec (exit replica) (set_a ∷ [])).store.m
      ≡ (run sample_codec start (set_a ∷ [])).m)
    × ((run_running sample_codec (exit replica) (set_a ∷ [])).store.log_file ≡ start.log_file)
run_running-exit_example = run_running-exit sample_codec replica (set_a ∷ []) refl

abbrev first_of_two : Instances
first_of_two =
    some (running (record { log_file = record { content = []; offset = 0 }; req = 0 })) ∷ none ∷ []

stop-Reach_example : (stop first_of_two ≡ none) ↔ (1 < 2)
stop-Reach_example =
    stop-Reach sample_codec 2 1 first_of_two
      (made 0 (record { log_file = record { content = []; offset = 0 }; req = 0 }) started refl)

abbrev world : World
world = record {
  creates = everywhere;
  bound = everywhere;
  dials = everywhere;
  log = not_exist;
  throughput = not_exist;
}

abbrev options : Options
options = record {
  settings = found;
  recov_handler_addr = [];
  cpuprofile = [];
  memprofile = [];
  logfolder = codes "/tmp/";
}

abbrev set_up : Process sample_library
set_up = record {
  opened = record { store = fresh_store 0; joins_at = none; transfers_at = none };
  node = (config_raft (codes "node9"), []);
  server = new_server new_file;
  requests = (codes "10.1.0.2:13000", codes "node9-10.2.0.9:12000-true" ++ newline ∷ []) ∷ [];
}

set_up_run :
    main sample_library everywhere everywhere [] (codes "/tmp/") not_exist not_exist 0 found
    ≡ some set_up
unfolding main start_raft start_server create_file bring_up new new_store listen_at pre_initialize
    send_join_request join_request ◌==◌
set_up_run = refl

abbrev events : List Event
events = joins (codes "10.0.0.7:5000") ∷ timer ∷ []

abbrev served : Server
served = tick (join_client (new_server new_file) (codes "10.0.0.7:5000"))

served_run : listen (new_server new_file) events ≡ some served
unfolding listen
served_run = refl

abbrev applied_a : Store
applied_a = (apply_kv sample_codec (fresh_store 0) set_a).0

applied_a_run : apply_all sample_codec (fresh_store 0) (set_a ∷ []) ≡ some applied_a
unfolding apply_all apply_kv dispatch
applied_a_run = refl

run_main-frames_example :
    (ended : Running) × (run_main sample_library sample_codec world 0 options events (set_a ∷ [])
      ≡ some ended)
    × (ended.store.log_file.content ≡ frames sample_codec (logged sample_codec (set_a ∷ [])))
    × (ended.store.m
        ≡ install_commands
            (pre_initialize 0 init_value Dict.empty)
            (logged sample_codec (set_a ∷ [])))
    × All IsClosed ended.clients
unfolding ◌==◌
run_main-frames_example =
    run_main-frames sample_library sample_codec world 0 options events (set_a ∷ []) set_up served
      applied_a refl refl refl refl set_up_run served_run applied_a_run
