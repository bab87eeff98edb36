-- ===== src/Kvstore/Start/Joining.antt =====
-- Which nodes start a cluster, and which join one.
use raft_demo.Base.{
  ◌≡◌, refl, sym, ◌∙◌, ap, subst, Bool, true, false, Option, none, some, List, [], ◌∷◌, ◌++◌, Bytes,
  codes, arith, ◌==◌, eq_iff, Bool-cases, ◌≢◌, get_elem?, inl, inr, if◌then◌else◌, ℕ,
}
use raft_demo.Go.Strings.{split}
use raft_demo.Membership.Requests.{join_request}
use raft_demo.Node.{Library, in_memory, guard, >>=-some}
use raft_demo.Node.Started.{IsFirst, IsJoining, bring_up-IsFirst, bring_up-IsJoining}
use raft_demo.Kvstore.Files.{Stat}
use raft_demo.Kvstore.Pods.{
  Pod, Role, listens, joins, is_leader, find_leader, leader_tag, pod_index, request_kube_config,
}
use raft_demo.Kvstore.Server.{start_server}
use raft_demo.Kvstore.Setup.{Opened, listen_at, new_store, new}
use raft_demo.Kvstore.Start.{
  Settings, settings_of, init, Process, config_raft, start_raft, send_join_request, main,
}

-- the role of a pod: a leader listens, and any other pod joins at an address
abbrev IsRole : Bool → Role → Type 0
IsRole true role = role ≡ listens (codes ":13000")
IsRole false role = (a : Bytes) × (role ≡ joins a) × ((a == []) ≡ false)

abbrev role_of : Bool → Option Bytes → Option Role
role_of leads found = if leads then some (listens (codes ":13000")) else elim found [
  | none ↦ none
  | some join_addr ↦ if join_addr == [] then none else some (joins join_addr)
]

role_of-IsRole :
    (leads : Bool) (found : Option Bytes) (role : Role)
    → role_of leads found ≡ some role
    → IsRole leads role
role_of-IsRole true found role h = cc
role_of-IsRole false none role h = absurd (cc)
role_of-IsRole false (some a) role h = elim (Bool-cases (a == [])) [
  | inl empty ↦ absurd (ground (arith, h, empty))
  | inr full ↦ (a, ground (arith, h, full), full)
]

request_kube_config-IsRole :
    (pod_name : Bytes) (listed : Option (List Pod)) (role : Role)
    → request_kube_config pod_name listed ≡ some role
    → IsRole (is_leader pod_name) role
unfolding request_kube_config
request_kube_config-IsRole pod_name none role h = role_of-IsRole (is_leader pod_name) none role h
request_kube_config-IsRole pod_name (some pods) role h =
    role_of-IsRole (is_leader pod_name) (find_leader (leader_tag (pod_index pod_name)) pods []) role
      h

pub settings_of-names :
    (tag pod_ip : Bytes) (role : Role)
    → ((settings_of tag pod_ip role).server_id ≡ codes "node" ++ tag)
      × ((settings_of tag pod_ip role).raft_addr ≡ pod_ip ++ codes ":12000")
settings_of-names tag pod_ip (listens a) = (refl, refl)
settings_of-names tag pod_ip (joins a) = (refl, refl)

-- what init has given it
pub init-settings_of :
    (pod_ip pod_name : Bytes) (listed : Option (List Pod)) (st : Settings)
    → init pod_ip pod_name listed ≡ some st
    → (tag : Bytes) × (role : Role) × (get_elem? (split pod_ip b'.') 3 ≡ some tag)
      × (st ≡ settings_of tag pod_ip role)
      × IsRole (is_leader pod_name) role
unfolding init
init-settings_of pod_ip pod_name listed st i =
    let (tag, found, i1) = >>=-some (get_elem? (split pod_ip b'.') 3) _ st i in
    let (role, asked, i2) = >>=-some (request_kube_config pod_name listed) _ st i1 in
    (tag, role, found, cc, request_kube_config-IsRole pod_name listed role asked)

-- a call that returns has sent one request
send_join_request_lem :
    (dials : Bytes → Bool) (st : Settings) (sent : List (Bytes × Bytes))
    → send_join_request dials st ≡ some sent
    → sent ≡ (st.join_addr, join_request st.server_id st.raft_addr true) ∷ []
unfolding send_join_request
send_join_request_lem dials st sent h = ground (arith, h, Bool-cases (dials st.join_addr))

-- where a node that was given an address listens
listen_at_lem :
    (bound : Bytes → Bool) (addr : Bytes) (at : Option Bytes)
    → listen_at bound addr ≡ some at
    → at ≡ (if addr == [] then none else some addr)
unfolding listen_at
listen_at_lem bound addr at h = ground (arith, h)

pub new-joins_at :
    (bound : Bytes → Bool) (join_addr recov_addr folder : Bytes) (log : Stat) (n : ℕ)
    (opened : Opened)
    → new bound join_addr recov_addr folder log n ≡ some opened
    → listen_at bound join_addr ≡ some opened.joins_at
unfolding new
new-joins_at bound join_addr recov_addr folder log n opened h =
    let (joins_at, j, h1) = >>=-some (listen_at bound join_addr) _ opened h in
    let (transfers_at, t, h2) = >>=-some (listen_at bound recov_addr) _ opened h1 in
    let (s, made, h3) = >>=-some (new_store folder log n) _ opened h2 in
    let same : record { store = s; joins_at = joins_at; transfers_at = transfers_at } ≡ opened =
      cc in
    j ∙ ap (λ o. some o.joins_at) same

module _ (lib : Library) where
  -- What the calls of main that listen for joins, start Raft and join have given it.
  abbrev pub Ran :
      (bound dials : Bytes → Bool)
      → Settings
      → Option Bytes
      → lib.Node
      → List (Bytes × Bytes)
      → Type 0
  Ran bound dials st joins_at node requests =
      (listen_at bound st.join_handler_addr ≡ some joins_at)
      × (start_raft lib (st.join_addr == []) st.server_id st.raft_addr ≡ some node)
      × ((if st.join_addr == [] then some [] else send_join_request dials st) ≡ some requests)

  -- What a leader's pod has started and sent, and another's, and where it listens for joins.
  abbrev pub IsStarted : Bool → Settings → Option Bytes → lib.Node → List (Bytes × Bytes) → Type 0
  IsStarted true st joins_at node requests =
      IsFirst lib (config_raft st.server_id) st.raft_addr (codes "checkpoints/" ++ st.server_id)
        in_memory node
      × (requests ≡ [])
      × (joins_at ≡ some (codes ":13000"))
  IsStarted false st joins_at node requests =
      IsJoining lib (config_raft st.server_id) st.raft_addr (codes "checkpoints/" ++ st.server_id)
        in_memory node
      × (requests ≡ (st.join_addr, join_request st.server_id st.raft_addr true) ∷ [])
      × (st.join_addr ≢ [])
      × (joins_at ≡ none)

  start_raft-IsFirst :
      (id raft_addr : Bytes) (node : lib.Node)
      → start_raft lib true id raft_addr ≡ some node
      → IsFirst lib (config_raft id) raft_addr (codes "checkpoints/" ++ id) in_memory node
  unfolding start_raft
  start_raft-IsFirst id raft_addr node h =
      bring_up-IsFirst lib (config_raft id) raft_addr (codes "checkpoints/" ++ id) in_memory node h

  start_raft-IsJoining :
      (id raft_addr : Bytes) (node : lib.Node)
      → start_raft lib false id raft_addr ≡ some node
      → IsJoining lib (config_raft id) raft_addr (codes "checkpoints/" ++ id) in_memory node
  unfolding start_raft
  start_raft-IsJoining id raft_addr node h =
      bring_up-IsJoining lib (config_raft id) raft_addr (codes "checkpoints/" ++ id) in_memory node
        h

  module _ (bound dials : Bytes → Bool) (joins_at : Option Bytes) (node : lib.Node)
      (requests : List (Bytes × Bytes)) where
    leader-IsStarted :
        (tag pod_ip : Bytes)
        → Ran bound dials (settings_of tag pod_ip (listens (codes ":13000"))) joins_at node requests
        → IsStarted true (settings_of tag pod_ip (listens (codes ":13000"))) joins_at node requests
    unfolding ◌==◌
    leader-IsStarted tag pod_ip (heard, started, asked) =
        let st = settings_of tag pod_ip (listens (codes ":13000")) in
        (
          start_raft-IsFirst st.server_id st.raft_addr node started,
          cc,
          listen_at_lem bound (codes ":13000") joins_at heard,
        )

    other-IsStarted :
        (tag pod_ip addr : Bytes)
        → (addr == []) ≡ false
        → Ran bound dials (settings_of tag pod_ip (joins addr)) joins_at node requests
        → IsStarted false (settings_of tag pod_ip (joins addr)) joins_at node requests
    unfolding ◌==◌
    other-IsStarted tag pod_ip addr full (heard, started, asked) =
        let st = settings_of tag pod_ip (joins addr) in
        (
          start_raft-IsJoining st.server_id st.raft_addr node
              (subst (λ e. start_raft lib e st.server_id st.raft_addr ≡ some node) full started),
          send_join_request_lem dials st requests (
              subst (λ e. (if e then some [] else send_join_request dials st) ≡ some requests) full
                asked),
          λ empty. absurd (cc (sym full, (eq_iff addr []).1 empty)),
          listen_at_lem bound [] joins_at heard,
        )

    settings_of-IsStarted :
        (tag pod_ip : Bytes) (leads : Bool) (role : Role)
        → IsRole leads role
        → Ran bound dials (settings_of tag pod_ip role) joins_at node requests
        → IsStarted leads (settings_of tag pod_ip role) joins_at node requests
    settings_of-IsStarted tag pod_ip true role kind =
        subst
          (λ x.
            Ran bound dials (settings_of tag pod_ip x) joins_at node requests
            → IsStarted true (settings_of tag pod_ip x) joins_at node requests)
          (sym kind) (leader-IsStarted tag pod_ip)
    settings_of-IsStarted tag pod_ip false role (addr, same, full) =
        subst
          (λ x.
            Ran bound dials (settings_of tag pod_ip x) joins_at node requests
            → IsStarted false (settings_of tag pod_ip x) joins_at node requests)
          (sym same) (other-IsStarted tag pod_ip addr full)

    -- With what init has found, the two calls do what fits the pod.
    pub init-IsStarted :
        (pod_ip pod_name : Bytes) (listed : Option (List Pod)) (st : Settings)
        → init pod_ip pod_name listed ≡ some st
        → Ran bound dials st joins_at node requests
        → IsStarted (is_leader pod_name) st joins_at node requests
    init-IsStarted pod_ip pod_name listed st i ran =
        let (tag, role, found, same, kind) = init-settings_of pod_ip pod_name listed st i in
        subst (λ x. IsStarted (is_leader pod_name) x joins_at node requests) (sym same)
          (settings_of-IsStarted tag pod_ip (is_leader pod_name) role kind
            (subst (λ x. Ran bound dials x joins_at node requests) same ran))

  main-Ran :
      (bound dials : Bytes → Bool) (recov_handler_addr logfolder : Bytes) (log throughput : Stat)
      (n : ℕ) (st : Settings) (p : Process lib)
      → main lib bound dials recov_handler_addr logfolder log throughput n st ≡ some p
      → Ran bound dials st p.opened.joins_at p.node p.requests
  unfolding main
  main-Ran bound dials recov_handler_addr logfolder log throughput n st p m =
      let (opened, made, m1) =
        >>=-some (new bound st.join_handler_addr recov_handler_addr logfolder log n) _ p m in
      let (_, heard, m2) = >>=-some (guard (bound st.server_port)) _ p m1 in
      let (ra, started, m3) =
        >>=-some (start_raft lib (st.join_addr == []) st.server_id st.raft_addr) _ p m2 in
      let (svr, served, m4) = >>=-some (start_server throughput) _ p m3 in
      let (sent, asked, m5) =
        >>=-some (if st.join_addr == [] then some [] else send_join_request dials st) _ p m4 in
      let same : record { opened = opened; node = ra; server = svr; requests = sent } ≡ p = cc in
      (
        new-joins_at bound st.join_handler_addr recov_handler_addr logfolder log n opened made
            ∙ ap (λ q. some q.opened.joins_at) same,
        started ∙ ap (λ q. some q.node) same,
        asked ∙ ap (λ q. some q.requests) same,
      )

  -- A pod whose init and main come to their ends, if its name is a leader's, has brought up Raft and
  -- bootstrapped a cluster with its own ID and address as the only member, sent no request, and
  -- listens for joins at port 13000. Any other pod has brought up Raft and bootstrapped no cluster,
  -- does not listen for joins, and has sent exactly one request, to join as a voter with its own ID
  -- and address, to the address that init has found, which is not empty.
  pub main-IsStarted :
      (bound dials : Bytes → Bool) (recov_handler_addr logfolder : Bytes) (log throughput : Stat)
      (n : ℕ) (pod_ip pod_name : Bytes) (listed : Option (List Pod)) (st : Settings)
      (p : Process lib)
      → init pod_ip pod_name listed ≡ some st
      → main lib bound dials recov_handler_addr logfolder log throughput n st ≡ some p
      → IsStarted (is_leader pod_name) st p.opened.joins_at p.node p.requests
  main-IsStarted bound dials recov_handler_addr logfolder log throughput n pod_ip pod_name listed st
        p i m =
      init-IsStarted bound dials p.opened.joins_at p.node p.requests pod_ip pod_name listed st i
        (main-Ran bound dials recov_handler_addr logfolder log throughput n st p m)
