-- ===== src/Diskstorage/Start/Joining.antt =====
-- Which nodes of diskstorage start a cluster, and which join one.
use raft_demo.Base.{◌≡◌, ◌∙◌, ap, Bool, Option, some, List, [], Bytes, ◌==◌, if◌then◌else◌}
use raft_demo.Node.{Library, guard, >>=-some}
use raft_demo.Kvstore.Files.{Stat}
use raft_demo.Kvstore.Pods.{Pod}
use raft_demo.Kvstore.Server.{start_server}
use raft_demo.Kvstore.Start.{Settings}
use raft_demo.Kvstore.Setup.{listen_at}
use raft_demo.Kvstore.Start.Joining.{Ran, IsStarted, init-IsStarted}
use raft_demo.Diskstorage.Server.{is_leader}
use raft_demo.Diskstorage.Store.{Opened, new_store, new}
use raft_demo.Diskstorage.Start.{Process, init, start_raft, send_join_request, main}

disk_new-joins_at :
    (bound : Bytes → Bool) (join_addr : Bytes) (content : Option Bytes) (folder : Bytes)
    (log : Stat) (opened : Opened)
    → new bound join_addr content folder log ≡ some opened
    → listen_at bound join_addr ≡ some opened.joins_at
unfolding new
disk_new-joins_at bound join_addr content folder log opened h =
    let (joins_at, j, h1) = >>=-some (listen_at bound join_addr) _ opened h in
    let (s, made, h2) = >>=-some (new_store content folder log) _ opened h1 in
    let same : record { store = s; joins_at = joins_at } ≡ opened = cc in
    j ∙ ap (λ o. some o.joins_at) same

module _ (lib : Library) where
  disk_main-Ran :
      (bound dials : Bytes → Bool) (content : Option Bytes) (logfolder : Bytes)
      (log throughput : Stat) (st : Settings) (p : Process lib)
      → main lib bound dials content logfolder log throughput st ≡ some p
      → Ran lib bound dials st p.opened.joins_at p.node p.requests
  unfolding main start_raft send_join_request
  disk_main-Ran bound dials content logfolder log throughput st p m =
      let (opened, made, m1) =
        >>=-some (new bound st.join_handler_addr content logfolder log) _ p m in
      let (_, heard, m2) = >>=-some (guard (bound st.server_port)) _ p m1 in
      let (ra, started, m3) =
        >>=-some (start_raft lib (st.join_addr == []) st.server_id st.raft_addr) _ p m2 in
      let (svr, served, m4) = >>=-some (start_server throughput) _ p m3 in
      let (sent, asked, m5) =
        >>=-some (if st.join_addr == [] then some [] else send_join_request dials st) _ p m4 in
      let same : record { opened = opened; node = ra; server = svr; requests = sent } ≡ p = cc in
      (
        disk_new-joins_at bound st.join_handler_addr content logfolder log opened made
            ∙ ap (λ q. some q.opened.joins_at) same,
        started ∙ ap (λ q. some q.node) same,
        asked ∙ ap (λ q. some q.requests) same,
      )

  -- A pod whose init and main come to their ends has begun a cluster of its own, sent no request and
  -- listens for joins if its name is a leader's; any other has begun none, does not listen, and has
  -- sent one request to join.
  pub disk_main-IsStarted :
      (bound dials : Bytes → Bool) (content : Option Bytes) (logfolder : Bytes)
      (log throughput : Stat) (pod_ip pod_name : Bytes) (listed : Option (List Pod)) (st : Settings)
      (p : Process lib)
      → init pod_ip pod_name listed ≡ some st
      → main lib bound dials content logfolder log throughput st ≡ some p
      → IsStarted lib (is_leader pod_name) st p.opened.joins_at p.node p.requests
  unfolding init is_leader
  disk_main-IsStarted bound dials content logfolder log throughput pod_ip pod_name listed st p i m =
      init-IsStarted lib bound dials p.opened.joins_at p.node p.requests pod_ip pod_name listed st i
        (disk_main-Ran bound dials content logfolder log throughput st p m)
