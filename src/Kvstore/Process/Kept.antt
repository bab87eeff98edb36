-- ===== src/Kvstore/Process/Kept.antt =====
-- What a replica that was stopped by a signal leaves in its log file.
use raft_demo.Base.{
  Bool, ℕ, ◌≡◌, refl, ap, sym, subst, ◌∙◌, true, false, some, List, [], ◌∷◌, Bytes, All, arith,
  ◌==◌, if◌then◌else◌,
}
use raft_demo.Base.Dict
use raft_demo.Pb.{Log, Codec}
use raft_demo.Frames.{frames}
use raft_demo.Node.{Library, guard, >>=-some}
use raft_demo.Recovery.State.{install_commands}
use raft_demo.Kvstore.Files.{not_exist, create_file}
use raft_demo.Kvstore.Fsm.{Store, apply, run}
use raft_demo.Kvstore.Fsm.Logged.{IsAppending, logged, map-run, content-run}
use raft_demo.Kvstore.Server.{Server, Event, listen, start_server}
use raft_demo.Kvstore.Server.Exit.{Running, sessions, exit, disconnect_all}
use raft_demo.Kvstore.Sessions.Outgoing.{Session, disconnect}
use raft_demo.Kvstore.Setup.{Opened, listen_at, new_store, new, pre_initialize, init_value}
use raft_demo.Kvstore.Start.{Process, start_raft, send_join_request, main}
use raft_demo.Kvstore.Options.{Options}
use raft_demo.Kvstore.Process.{World, apply_all, terminate, run_main}

-- the store that New makes over a new log file
abbrev pub fresh_store : ℕ → Store
fresh_store n = record {
  m = pre_initialize n init_value Dict.empty;
  logging = true;
  log_file = record { content = []; offset = 0 };
}

new_store-fresh_store :
    (folder : Bytes) (n : ℕ)
    → (folder == []) ≡ false
    → new_store folder not_exist n ≡ some (fresh_store n)
unfolding new_store create_file
new_store-fresh_store folder n named = rw named refl

new-fresh_store :
    (bound : Bytes → Bool) (join_addr recov_addr folder : Bytes) (n : ℕ) (opened : Opened)
    → (folder == []) ≡ false
    → new bound join_addr recov_addr folder not_exist n ≡ some opened
    → opened.store ≡ fresh_store n
unfolding new
new-fresh_store bound join_addr recov_addr folder n opened named h =
    let (joins_at, j, h1) = >>=-some (listen_at bound join_addr) _ opened h in
    let (transfers_at, t, h2) = >>=-some (listen_at bound recov_addr) _ opened h1 in
    let (s, made, h3) = >>=-some (new_store folder not_exist n) _ opened h2 in
    let fresh = new_store-fresh_store folder n named in cc

main-fresh_store :
    (lib : Library) (world : World) (n : ℕ) (opts : Options) (p : Process lib)
    → world.log ≡ not_exist
    → (opts.logfolder == []) ≡ false
    → main lib world.bound world.dials opts.recov_handler_addr opts.logfolder world.log
        world.throughput n opts.settings
      ≡ some p
    → p.opened.store ≡ fresh_store n
unfolding main
main-fresh_store lib world n opts p missing folder m =
    let st = opts.settings in
    let (opened, made, m1) =
      >>=-some
        (new world.bound st.join_handler_addr opts.recov_handler_addr opts.logfolder world.log n) _
        p m in
    let (_, heard, m2) = >>=-some (guard (world.bound st.server_port)) _ p m1 in
    let (ra, started, m3) =
      >>=-some (start_raft lib (st.join_addr == []) st.server_id st.raft_addr) _ p m2 in
    let (svr, served, m4) = >>=-some (start_server world.throughput) _ p m3 in
    let (sent, asked, m5) =
      >>=-some (if st.join_addr == [] then some [] else send_join_request world.dials st) _ p m4 in
    let same : record { opened = opened; node = ra; server = svr; requests = sent } ≡ p = cc in
    sym (ap (λ q. q.opened.store) same)
    ∙ new-fresh_store world.bound st.join_handler_addr opts.recov_handler_addr opts.logfolder n
        opened folder
        (subst
          (λ stat.
            new world.bound st.join_handler_addr opts.recov_handler_addr opts.logfolder stat n
            ≡ some opened)
          missing made)

module _ (pb : Codec) where
  -- entries that do not panic are applied as by run
  apply_all-run : (f f' : Store) (ls : List Log) → apply_all pb f ls ≡ some f' → run pb f ls ≡ f'
  unfolding apply_all run
  apply_all-run f f' [] h = cc
  apply_all-run f f' (l ∷ ls) h = ground (arith, h, apply_all-run (apply pb f l).0 f' ls)

abbrev pub IsClosed : Session → Type 0
IsClosed client = client.closed ≡ true

disconnect_all-IsClosed : (clients : List Session) → All IsClosed (disconnect_all clients)
unfolding disconnect_all disconnect
disconnect_all-IsClosed [] = tt
disconnect_all-IsClosed (client ∷ clients) = (refl, disconnect_all-IsClosed clients)

-- Take a replica that has come through its set-up with a log folder, in which there is no log file
-- yet, and without profiles. It is stopped by a signal when Listen and monitor have seen some events
-- without a panic, and Raft has applied some entries without one. Then main comes to its end. The
-- log file holds exactly the frames of the commands of the entries, the map is what these commands
-- make of the keys of New, and the connections of all clients are closed.
pub run_main-frames :
    (lib : Library) (pb : Codec) (world : World) (n : ℕ) (opts : Options) (events : List Event)
    → (entries : List Log) (p : Process lib) (svr : Server) (f : Store) → world.log ≡ not_exist
    → (opts.logfolder == []) ≡ false
    → opts.cpuprofile ≡ []
    → opts.memprofile ≡ []
    → main lib world.bound world.dials opts.recov_handler_addr opts.logfolder world.log
        world.throughput n opts.settings
      ≡ some p
    → listen p.server events ≡ some svr
    → apply_all pb p.opened.store entries ≡ some f
    → (ended : Running) × (run_main lib pb world n opts events entries ≡ some ended)
      × (ended.store.log_file.content ≡ frames pb (logged pb entries))
      × (ended.store.m
          ≡ install_commands (pre_initialize n init_value Dict.empty) (logged pb entries))
      × All IsClosed ended.clients
unfolding run_main terminate exit ◌==◌
run_main-frames lib pb world n opts events entries p svr f missing folder cpu mem m heard applied =
    let fresh = main-fresh_store lib world n opts p missing folder m in
    let ran : run pb (fresh_store n) entries ≡ f =
      ap (λ g. run pb g entries) (sym fresh) ∙ apply_all-run pb p.opened.store f entries applied in
    let begins : IsAppending pb (fresh_store n) = record { is_logging = refl; at_end = refl } in
    let stopped : Running = record {
      store = f;
      log_open = true;
      shut_down = false;
      clients = sessions svr.clients;
    } in
    (
      exit stopped,
      rw (cpu, m, heard, applied, mem) refl,
      ap (λ g. g.log_file.content) (sym ran) ∙ content-run pb (fresh_store n) entries begins,
      ap (λ g. g.m) (sym ran) ∙ map-run pb (fresh_store n) entries,
      disconnect_all-IsClosed (sessions svr.clients),
    )
