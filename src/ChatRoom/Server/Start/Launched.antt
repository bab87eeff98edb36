-- ===== src/ChatRoom/Server/Start/Launched.antt =====
-- Which chat servers start a cluster, and which join one.
use raft_demo.Base.{
  ◌≡◌, ◌≢◌, ◌∙◌, ap, subst, Bool, true, false, not, some, List, [], ◌∷◌, Bytes, ◌==◌, eq_iff, arith,
  Bool-cases,
}
use raft_demo.Membership.{Cluster, join_raft, or_fatal}
use raft_demo.Membership.Requests.{IsField, join_request, handle_join-join_request}
use raft_demo.Node.{Library, guard, >>=-some}
use raft_demo.ChatRoom.Server.{listen_raft_joins}
use raft_demo.ChatRoom.Server.Start.{
  Flags, Process, start_raft, new_server, send_join_request, main,
}

module _ (lib : Library) (bound dials : Bytes → Bool) where
  launched :
      (fl : Flags) (p : Process lib)
      → main lib bound dials fl ≡ some p
      → (start_raft lib fl.svr_id (fl.join_addr == []) fl.svr_id fl.raft_addr ≡ some p.node)
        × (send_join_request dials fl ≡ some p.requests)
  unfolding main
  launched fl p m =
      let (_, named, m1) = >>=-some (guard (not (fl.svr_id == []))) _ p m in
      let (_, heard, m2) = >>=-some (guard (bound fl.svr_port)) _ p m1 in
      let (ra, started, m3) =
        >>=-some (start_raft lib fl.svr_id (fl.join_addr == []) fl.svr_id fl.raft_addr) _ p m2 in
      let (sent, asked, m4) = >>=-some (send_join_request dials fl) _ p m3 in
      let same : record { node = ra; server = new_server; requests = sent } ≡ p = cc in
      (started ∙ ap (λ q. some q.node) same, asked ∙ ap (λ q. some q.requests) same)

  send_join_request-sent :
      (fl : Flags) (sent : List (Bytes × Bytes))
      → (fl.join_addr == []) ≡ false
      → send_join_request dials fl ≡ some sent
      → sent ≡ (fl.join_addr, join_request fl.svr_id fl.raft_addr true) ∷ []
  unfolding send_join_request
  send_join_request-sent fl sent full h = ground (arith, h, full, Bool-cases (dials fl.join_addr))

  -- A chat server whose main comes to its end with an address to join at has started Raft without a
  -- cluster of its own, and sent one request to that address. If its ID and its Raft address have no
  -- dash and no newline, then the server that listens there calls JoinRaft with the two, for a
  -- voter.
  pub main-listen_raft_joins :
      (fl : Flags) (p : Process lib) (c : Cluster) (s : c.State)
      → fl.join_addr ≢ []
      → IsField fl.svr_id
      → IsField fl.raft_addr
      → main lib bound dials fl ≡ some p
      → (text : Bytes) × (start_raft lib fl.svr_id false fl.svr_id fl.raft_addr ≡ some p.node)
        × (p.requests ≡ (fl.join_addr, text) ∷ [])
        × (listen_raft_joins c s text ≡ or_fatal c (join_raft c s fl.svr_id fl.raft_addr true))
  unfolding listen_raft_joins
  main-listen_raft_joins fl p c s full id addr m =
      let (started, asked) = launched fl p m in
      let tested : (fl.join_addr == []) ≡ false = ground (arith, eq_iff fl.join_addr [], full) in
      (
        join_request fl.svr_id fl.raft_addr true,
        subst (λ e. start_raft lib fl.svr_id e fl.svr_id fl.raft_addr ≡ some p.node) tested started,
        send_join_request-sent fl p.requests tested asked,
        handle_join-join_request c s fl.svr_id fl.raft_addr true id addr,
      )
