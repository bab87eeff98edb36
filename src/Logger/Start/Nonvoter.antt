-- ===== src/Logger/Start/Nonvoter.antt =====
-- What the leader does with the request of a logger.
use raft_demo.Base.{
  ◌≡◌, refl, sym, ◌∙◌, ap, subst, ℕ, ◌+◌, Bool, false, Option, none, some, List, [], ◌∷◌, ◌++◌,
  Bytes, codes, arith, dash, newline, All, get_elem?, get_elem?-All, Lacks-append, Option-cases,
  inl, inr, length, Bool-cases,
}
use raft_demo.Go.Strconv.{itoa}
use raft_demo.Go.Strconv.Laws.{itoa-Lacks}
use raft_demo.Kvstore.Files.{Stat}
use raft_demo.Kvstore.Pods.{Pod}
use raft_demo.Membership.{Cluster, join_raft, or_fatal, handle_join}
use raft_demo.Membership.Requests.{IsField, join_request, handle_join-join_request}
use raft_demo.Node.{Library, in_memory, >>=-some}
use raft_demo.Node.Started.{IsJoining, bring_up-IsJoining}
use raft_demo.Logger.Setup.{
  Config, Instance, instance_of, start, init, request_kube_config, ids_from, rafts_from,
}
use raft_demo.Logger.Start.{Started, config_raft, new_logger, start_raft, send_join_request, launch}

itoa-IsField : (n : ℕ) → IsField (itoa n)
itoa-IsField n = record { no_dash = itoa-Lacks dash refl n; one_line = itoa-Lacks newline refl n }

append-IsField : (s t : Bytes) → IsField s → IsField t → IsField (s ++ t)
append-IsField s t hs ht = record {
  no_dash = Lacks-append dash s t hs.no_dash ht.no_dash;
  one_line = Lacks-append newline s t hs.one_line ht.one_line;
}

ids_from-IsField : (base_rand i : ℕ) (addrs : List Bytes) → All IsField (ids_from base_rand i addrs)
unfolding ids_from
ids_from-IsField base_rand i [] = tt
ids_from-IsField base_rand i (addr ∷ addrs) = (
  append-IsField (codes "log") (itoa (base_rand + i))
      (record { no_dash = omega arith; one_line = omega arith }) (itoa-IsField (base_rand + i)),
  ids_from-IsField base_rand (i + 1) addrs,
)

rafts_from-IsField :
    (ip : Bytes) (i : ℕ) (addrs : List Bytes) → IsField ip → All IsField (rafts_from ip i addrs)
unfolding rafts_from
rafts_from-IsField ip i [] h = tt
rafts_from-IsField ip i (addr ∷ addrs) h = (
  append-IsField (ip ++ codes ":") (itoa (12000 + i))
      (append-IsField ip (codes ":") h (record { no_dash = omega arith; one_line = omega arith }))
      (itoa-IsField (12000 + i)),
  rafts_from-IsField ip (i + 1) addrs h,
)

-- the names that init gives can stand in a join request
init-IsField :
    (base_rand : ℕ) (ip : Bytes) (listed : Option (List Pod)) (config : Config)
    → IsField ip
    → init base_rand ip listed ≡ some config
    → All IsField config.log_ids × All IsField config.raft_addrs
unfolding init
init-IsField base_rand ip listed config h e = elim (Option-cases (request_kube_config listed)) [
  | inl none_found ↦ absurd (cc (rw (init, none_found) at e))
  | inr (addrs, found) ↦
      let e' = rw (init, found) at e in
      let same : record {
        num_apps = length addrs;
        log_ids = ids_from base_rand 0 addrs;
        raft_addrs = rafts_from ip 0 addrs;
        join_addrs = addrs;
      }
          ≡ config =
        cc in
      subst (λ x. All IsField x.log_ids × All IsField x.raft_addrs) same
        (ids_from-IsField base_rand 0 addrs, rafts_from-IsField ip 0 addrs h)
]

instance_of-some :
    (x y z : Option Bytes) (i : Instance)
    → instance_of x y z ≡ some i
    → (x ≡ some i.log_id) × (y ≡ some i.raft_addr)
instance_of-some (some x) (some y) (some z) i h =
    let same : record { log_id = x; raft_addr = y; join_addr = z } ≡ i = cc in
    (ap (λ q. some q.log_id) same, ap (λ q. some q.raft_addr) same)
instance_of-some none y z i h = absurd (cc)
instance_of-some (some x) none z i h = absurd (cc)
instance_of-some (some x) (some y) none i h = absurd (cc)

start-IsField :
    (config : Config) (j : ℕ) (i : Instance)
    → All IsField config.log_ids × All IsField config.raft_addrs
    → start config j ≡ some i
    → IsField i.log_id × IsField i.raft_addr
unfolding start
start-IsField config j i (ids, rafts) h =
    let (x, y) =
      instance_of-some (get_elem? config.log_ids j) (get_elem? config.raft_addrs j)
        (get_elem? config.join_addrs j) i h in
    (
      get_elem?-All IsField config.log_ids j i.log_id ids x,
      get_elem?-All IsField config.raft_addrs j i.raft_addr rafts y,
    )

send_join_request-sent :
    (dials : Bytes → Bool) (id raft_addr join_addr : Bytes) (sent : Bytes × Bytes)
    → send_join_request dials id raft_addr join_addr ≡ some sent
    → sent ≡ (join_addr, join_request id raft_addr false)
unfolding send_join_request
send_join_request-sent dials id raft_addr join_addr sent h =
    ground (arith, h, Bool-cases (dials join_addr))

module _ (lib : Library) (dials : Bytes → Bool) (stats : Bytes → Stat) (logfolder : Bytes) where
  start_raft-IsJoining :
      (id raft_addr : Bytes) (node : lib.Node)
      → start_raft lib id raft_addr ≡ some node
      → IsJoining lib (config_raft id) raft_addr (codes "checkpoints/" ++ id) in_memory node
  unfolding start_raft
  start_raft-IsJoining id raft_addr node h =
      bring_up-IsJoining lib (config_raft id) raft_addr (codes "checkpoints/" ++ id) in_memory node
        h

  launch-sent :
      (config : Config) (j : ℕ) (p : Started lib)
      → launch lib dials stats logfolder config j ≡ some p
      → (i : Instance) × (start config j ≡ some i)
        × IsJoining lib
            (config_raft i.log_id)
            i.raft_addr
            (codes "checkpoints/" ++ i.log_id)
            in_memory
            p.node
        × (p.request ≡ (i.join_addr, join_request i.log_id i.raft_addr false))
  unfolding launch
  launch-sent config j p m =
      let (i, given, m1) = >>=-some (start config j) _ p m in
      let (made, created, m2) = >>=-some (new_logger stats logfolder i.log_id) _ p m1 in
      let (ra, started, m3) = >>=-some (start_raft lib i.log_id i.raft_addr) _ p m2 in
      let (sent, asked, m4) =
        >>=-some (send_join_request dials i.log_id i.raft_addr i.join_addr) _ p m3 in
      let same : record { logger = made.0; throughput = made.1; node = ra; request = sent } ≡ p =
        cc in
      (
        i,
        given,
        start_raft-IsJoining i.log_id i.raft_addr p.node (started ∙ ap (λ q. some q.node) same),
        sym (ap (λ q. q.request) same)
            ∙ send_join_request-sent dials i.log_id i.raft_addr i.join_addr sent asked,
      )

  -- With what init finds in Kubernetes, for a pod address without a dash and a newline: a goroutine
  -- of main that comes to its end has brought up Raft under the names of its index and bootstrapped
  -- no cluster, and the request that it has sent makes the leader call JoinRaft with these names for
  -- a member that does not vote.
  pub launch-handle_join :
      (base_rand : ℕ) (ip : Bytes) (listed : Option (List Pod)) (config : Config) (j : ℕ)
      (p : Started lib) (c : Cluster) (s : c.State)
      → IsField ip
      → init base_rand ip listed ≡ some config
      → launch lib dials stats logfolder config j ≡ some p
      → (i : Instance) × (start config j ≡ some i)
        × IsJoining lib
            (config_raft i.log_id)
            i.raft_addr
            (codes "checkpoints/" ++ i.log_id)
            in_memory
            p.node
        × (p.request.0 ≡ i.join_addr)
        × (handle_join c s p.request.1 ≡ or_fatal c (join_raft c s i.log_id i.raft_addr false))
  launch-handle_join base_rand ip listed config j p c s h e m =
      let (i, given, started, sent) = launch-sent config j p m in
      let (id, addr) =
        start-IsField config j i (init-IsField base_rand ip listed config h e) given in
      (
        i,
        given,
        started,
        ap (λ q. q.0) sent,
        ap (λ q. handle_join c s q.1) sent
            ∙ handle_join-join_request c s i.log_id i.raft_addr false id addr,
      )
