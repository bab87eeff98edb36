-- ===== src/Kvstore/Server/Exit/Late.antt =====
-- Entries that Raft applies behind Exit.
use raft_demo.Base.{
  ℕ, ◌≡◌, refl, true, false, List, [], ◌∷◌, ◌∙◌, sym, Option-cases, inl, inr, arith,
}
use raft_demo.Base.Dict
use raft_demo.Go.Files.{File}
use raft_demo.Pb.{Command, Log, Codec}
use raft_demo.Recovery.State.{install_command, install_commands}
use raft_demo.Kvstore.Fsm.{Store, apply_set, dispatch, log_command, apply, run}
use raft_demo.Kvstore.Fsm.Logged.{logged, map-run}
use raft_demo.Kvstore.Server.Exit.{Running, exit, apply_running, run_running}

module _ (pb : Codec) where
  log_command-log_file :
      (f : Store) (index : ℕ) (c : Command) (file : File)
      → record (log_command pb f index c) { log_file = file } ≡ record f { log_file = file }
  unfolding log_command
  log_command-log_file f index c file = ground arith

  -- with a closed log file: the map is changed, the log is not
  run_running_closed :
      (svr : Running) (ls : List Log)
      → svr.log_open ≡ false
      → ((run_running pb svr ls).store.m ≡ install_commands svr.store.m (logged pb ls))
        × ((run_running pb svr ls).store.log_file ≡ svr.store.log_file)
  unfolding run_running apply_running apply dispatch apply_set logged install_commands
      install_command
  run_running_closed svr [] closed = (refl, refl)
  run_running_closed svr (l ∷ ls) closed = elim (Option-cases (pb.unmarshal l.bytes)) [
    | inl e ↦ ground (arith, closed, run_running_closed svr ls closed)
    | inr (c, e) ↦
        let stored : Store = record svr.store { m = Dict.put svr.store.m c.key c.value } in
        ground (
          arith,
          closed,
          log_command-log_file stored l.index c svr.store.log_file,
          log_command-log_file svr.store l.index c svr.store.log_file,
          run_running_closed (record svr { store = stored }) ls closed,
          run_running_closed svr ls closed,
        )
  ]

  -- What Raft applies behind Exit of a logging replica changes the map as it would have without
  -- Exit, and leaves the log file as it was.
  pub run_running-exit :
      (svr : Running) (ls : List Log)
      → svr.store.logging ≡ true
      → ((run_running pb (exit svr) ls).store.m ≡ (run pb svr.store ls).m)
        × ((run_running pb (exit svr) ls).store.log_file ≡ svr.store.log_file)
  unfolding exit
  run_running-exit svr ls logs =
      let (map, log) = run_running_closed (exit svr) ls (ground (arith, logs)) in
      (map ∙ sym (map-run pb svr.store ls), log)
