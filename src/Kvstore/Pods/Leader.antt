-- ===== src/Kvstore/Pods/Leader.antt =====
-- The address that a replica joins at.
use raft_demo.Base.{
  ◌≡◌, ◌≢◌, refl, Bool, true, false, none, some, List, [], ◌∷◌, ◌++◌, Bytes, codes, arith, eq_iff,
  All, if◌then◌else◌,
}
use raft_demo.Go.Strings.{contains}
use raft_demo.Kvstore.Pods.{Pod, find_leader}

-- the pod runs a container, whose name has the tag in it if the pod is a leader's
abbrev pub is_tagged : Bytes → Pod → Bool
is_tagged tag pod = elim pod.container [ none ↦ false | some name ↦ contains name tag ]

abbrev pub HasContainer : Pod → Type 0
HasContainer pod = pod.container ≢ none

-- the address of the last pod with a tag, or another where there is none
unfoldable pub last_ip : Bytes → List Pod → Bytes → Bytes
last_ip tag [] other = other
last_ip tag (pod ∷ pods) other =
    last_ip tag pods (if is_tagged tag pod then pod.pod_ip ++ codes ":13000" else other)

-- a tagged pod has an address
abbrev pub IsAddressed : Bytes → Pod → Type 0
IsAddressed tag pod = is_tagged tag pod ≡ true → pod.pod_ip ≢ []

-- Where every pod runs a container and every pod with the tag has an address, the loop ends with
-- the address of the last of these, at the port for joins, and with the given address where there
-- is none.
pub find_leader-last_ip :
    (tag : Bytes) (pods : List Pod) (join_addr : Bytes)
    → All HasContainer pods
    → All (IsAddressed tag) pods
    → find_leader tag pods join_addr ≡ some (last_ip tag pods join_addr)
unfolding find_leader last_ip
find_leader-last_ip tag [] join_addr h a = refl
find_leader-last_ip tag (pod ∷ pods) join_addr (h, hs) (a, rest) = ground (
  arith,
  find_leader-last_ip tag pods join_addr hs rest,
  find_leader-last_ip tag pods (pod.pod_ip ++ codes ":13000") hs rest,
  eq_iff pod.pod_ip [],
)
