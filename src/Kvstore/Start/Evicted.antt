-- ===== src/Kvstore/Start/Evicted.antt =====
-- What a join does to a node whose pod has another address.
use raft_demo.Base.{
  ◌≡◌, ◌≢◌, ◌↔◌, inl, inr, refl, sym, ◌∙◌, ap, subst, ℕ, Bool, true, false, Option, some, List, [],
  ◌∷◌, ◌++◌, Bytes, codes, arith, get_elem?, get_elem?-All, eqb, Lacks, Lacks-append, All, length,
  length-append, take-length-append, dash, newline, Bool-cases,
}
use raft_demo.Go.Strings.{split, cons_head}
use raft_demo.Membership.{Cluster, Server, join_raft, or_fatal, handle_join}
use raft_demo.Membership.Requests.{IsField, join_request, handle_join-join_request}
use raft_demo.Membership.Unique.{Clashes, IsUnique, Joined, join_raft-Joined}
use raft_demo.Kvstore.Pods.{Pod}
use raft_demo.Kvstore.Start.{Settings, init}
use raft_demo.Kvstore.Start.Joining.{settings_of-names, init-settings_of}

-- the server that a replica asks the leader to add
abbrev pub server_of : Settings → Server
server_of st = record { id = st.server_id; address = st.raft_addr }

-- the part of a pod's address that its server ID is made of
abbrev pub tag_of : Bytes → Option Bytes
tag_of pod_ip = get_elem? (split pod_ip b'.') 3

or_fatal-some :
    (c : Cluster) (r : c.State × Bool) (s' : c.State)
    → or_fatal c r ≡ some s'
    → (r.0 ≡ s') × (r.1 ≡ true)
or_fatal-some c (s, true) s' h = (cc, refl)
or_fatal-some c (s, false) s' h = absurd (cc)

append-injective : (s t u : Bytes) → s ++ u ≡ t ++ u → s ≡ t
append-injective s t u h =
    let same : length s ≡ length t =
      omega (arith, ap length h, length-append s u, length-append t u) in
    sym (take-length-append s u) ∙ cc (same, h) ∙ take-length-append t u

node-injective : (s t : Bytes) → codes "node" ++ s ≡ codes "node" ++ t → s ≡ t
node-injective s t h = cc

cons_head-All :
    (b c : ℕ) (parts : List Bytes) → c ≢ b → All (Lacks b) parts → All (Lacks b) (cons_head c parts)
cons_head-All b c [] d h = ((d, tt), tt)
cons_head-All b c (p ∷ ps) d (hp, hs) = ((d, hp), hs)

-- Parts of a text that has no byte `b` have none.
split-All : (b sep : ℕ) (s : Bytes) → Lacks b s → All (Lacks b) (split s sep)
unfolding split
split-All b sep [] h = (tt, tt)
split-All b sep (c ∷ s) (d, h) =
    let parts = split-All b sep s h in
    let joined = cons_head-All b c (split s sep) d parts in
    elim (Bool-cases (eqb c sep)) [ inl e ↦ rw e (tt, parts) | inr e ↦ rw e joined ]

init-names :
    (pod_ip pod_name : Bytes) (listed : Option (List Pod)) (st : Settings)
    → init pod_ip pod_name listed ≡ some st
    → (tag : Bytes) × (tag_of pod_ip ≡ some tag)
      × (st.server_id ≡ codes "node" ++ tag)
      × (st.raft_addr ≡ pod_ip ++ codes ":12000")
init-names pod_ip pod_name listed st i =
    let (tag, role, found, same, kind) = init-settings_of pod_ip pod_name listed st i in
    let (named, addressed) = settings_of-names tag pod_ip role in
    (tag, found, ap (λ x. x.server_id) same ∙ named, ap (λ x. x.raft_addr) same ∙ addressed)

-- the names of a replica can stand in a join request, if its address can
init-IsField :
    (pod_ip pod_name : Bytes) (listed : Option (List Pod)) (st : Settings)
    → IsField pod_ip
    → init pod_ip pod_name listed ≡ some st
    → IsField st.server_id × IsField st.raft_addr
init-IsField pod_ip pod_name listed st f i =
    let (tag, found, named, addressed) = init-names pod_ip pod_name listed st i in
    let part : (b : ℕ) → Lacks b pod_ip → Lacks b tag =
      λ b h. get_elem?-All (Lacks b) (split pod_ip b'.') 3 tag (split-All b b'.' pod_ip h) found in
    (
      subst IsField (sym named) (record {
        no_dash = Lacks-append dash (codes "node") tag (omega arith) (part dash f.no_dash);
        one_line = Lacks-append newline (codes "node") tag (omega arith) (part newline f.one_line);
      }),
      subst IsField (sym addressed) (record {
        no_dash = Lacks-append dash pod_ip (codes ":12000") f.no_dash (omega arith);
        one_line = Lacks-append newline pod_ip (codes ":12000") f.one_line (omega arith);
      }),
    )

module _ (c : Cluster) where
  open c use {State, Member, configuration}

  -- When the leader has handled the join request of a replica without ending, then a replica of
  -- another pod address is a member exactly if it was before and the fourth parts of the two
  -- addresses are different: a replica whose address ends in the same part has been taken out. This
  -- holds for addresses without a dash and a newline, in a configuration that has every ID and
  -- every address once.
  pub handle_join-tag_of :
      (s s' : State) (servers : List Server) (ip ip' name name' : Bytes)
      (listed listed' : Option (List Pod)) (st st' : Settings)
      → ip ≢ ip'
      → IsField ip'
      → init ip name listed ≡ some st
      → init ip' name' listed' ≡ some st'
      → configuration s ≡ some servers
      → IsUnique servers
      → handle_join c s (join_request st'.server_id st'.raft_addr true) ≡ some s'
      → Member s' (server_of st) ↔ (Member s (server_of st) × (tag_of ip ≢ tag_of ip'))
  handle_join-tag_of s s' servers ip ip' name name' listed listed' st st' other f i i' now u h =
      let (tag, found, named, addressed) = init-names ip name listed st i in
      let (tag', found', named', addressed') = init-names ip' name' listed' st' i' in
      let (fi, fa) = init-IsField ip' name' listed' st' f i' in
      let (left, joined) =
        or_fatal-some c (join_raft c s st'.server_id st'.raft_addr true) s'
          (sym (handle_join-join_request c s st'.server_id st'.raft_addr true fi fa) ∙ h) in
      let j : Joined c st'.server_id st'.raft_addr s s' =
        subst (Joined c st'.server_id st'.raft_addr s) left
          (join_raft-Joined c st'.server_id st'.raft_addr s servers true now u joined) in
      let apart : st.raft_addr ≢ st'.raft_addr =
        λ e. other (append-injective ip ip' (codes ":12000") (sym addressed ∙ e ∙ addressed')) in
      let same_id : tag_of ip ≡ tag_of ip' → st.server_id ≡ st'.server_id =
        λ e. let same : tag ≡ tag' = cc (e, found, found') in cc (same, named, named') in
      let same_tag : st.server_id ≡ st'.server_id → tag_of ip ≡ tag_of ip' =
        λ e. let same : tag ≡ tag' = cc (e, named, named') in cc (same, found, found') in
      let free : tag_of ip ≢ tag_of ip' → ¬ Clashes c st'.server_id st'.raft_addr (server_of st) =
        λ away clash. elim clash [ inl e ↦ away (same_tag e) | inr e ↦ apart e ] in
      (
        (λ m.
            let away : tag_of ip ≢ tag_of ip' =
              λ e. apart (ap (λ x. x.address) (j.alone (server_of st) m (inl (same_id e)))) in
            ((j.others (server_of st) (free away)).0 m, away)),
        (λ h. (j.others (server_of st) (free h.1)).1 h.0),
      )
