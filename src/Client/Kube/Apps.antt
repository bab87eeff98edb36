-- ===== src/Client/Kube/Apps.antt =====
-- The replicas that a client finds.
use raft_demo.Base.{
  ◌≡◌, ◌≢◌, refl, Bool, true, false, none, some, List, [], ◌∷◌, ◌++◌, Bytes, codes, arith, ◌==◌,
  eq_iff, All, if◌then◌else◌, ◌&&◌, not,
}
use raft_demo.Kvstore.Pods.{Pod}
use raft_demo.Kvstore.Pods.Leader.{HasContainer}
use raft_demo.Client.Kube.{is_app, app_ips}

abbrev pub is_app_pod : Bytes → Pod → Bool
is_app_pod filter pod = elim pod.container [ none ↦ false | some name ↦ is_app filter name ]

abbrev pub is_replica : Bytes → Bytes → Pod → Bool
is_replica own_ip filter pod = is_app_pod filter pod && not (pod.pod_ip == own_ip)

-- the addresses of the pods that pass a test
unfoldable pub addresses : (Pod → Bool) → List Pod → List Bytes
addresses p [] = []
addresses p (pod ∷ pods) =
    let rest = addresses p pods in if p pod then (pod.pod_ip ++ codes ":11000") ∷ rest else rest

abbrev pub IsAppAddressed : Bytes → Pod → Type 0
IsAppAddressed filter pod = is_app_pod filter pod ≡ true → pod.pod_ip ≢ []

-- Where every pod runs a container and every matching pod has an address, a client finds exactly
-- the matching pods that are no loggers and do not have its own address, in the order of the list.
pub app_ips-addresses :
    (own_ip filter : Bytes) (pods : List Pod)
    → All HasContainer pods
    → All (IsAppAddressed filter) pods
    → app_ips own_ip filter pods ≡ some (addresses (is_replica own_ip filter) pods)
unfolding app_ips addresses
app_ips-addresses own_ip filter [] h a = refl
app_ips-addresses own_ip filter (pod ∷ pods) (h, hs) (a, rest) =
    ground (arith, app_ips-addresses own_ip filter pods hs rest, eq_iff pod.pod_ip [])
