-- ===== src/Kvstore/Pods.antt =====
-- kvstore/main.go and diskstorage/main.go: how a replica in Kubernetes finds the leader to join.
pub mod Leader
use raft_demo.Base.{
  ℕ, zero, suc, Bool, true, false, Option, none, some, List, [], ◌∷◌, ◌++◌, Bytes, codes, dash,
  get_elem?, if◌then◌else◌, ◌==◌,
}
use raft_demo.Go.Strings.{split, contains}
use raft_demo.Go.Strconv.{ℤ, pos, negsuc, atoi, itoa}

-- v1.Pod: the name of its first container, where it has a container status, and its address.
pub record Pod : Type 0 where
  pub container : Option Bytes
  pub pod_ip : Bytes

-- the tags of a pod's name as loadEnvVariables reads them: the number in the third, or -1
abbrev pub or_minus_one : Option ℤ → ℤ
or_minus_one none = negsuc 0
or_minus_one (some i) = i

unfoldable pub pod_index : Bytes → ℤ
pod_index pod_name = elim (get_elem? (split pod_name dash) 2) [
  | none ↦ negsuc 0
  | some tag ↦ or_minus_one (atoi tag)
]

-- isLeader
unfoldable pub is_leader : Bytes → Bool
is_leader pod_name = contains pod_name (codes "leader")

unfoldable pub leader_tag : ℤ → Bytes
leader_tag (pos i) = codes "leader-" ++ itoa i
leader_tag (negsuc i) = codes "leader"

-- the loop over the pods with the join address so far; `none` is the panic at a pod without a
-- container status, or a call of log.Fatalln
unfoldable pub find_leader : Bytes → List Pod → Bytes → Option Bytes
find_leader tag [] join_addr = some join_addr
find_leader tag (pod ∷ pods) join_addr = elim pod.container [
  | none ↦ none
  | some name ↦ elim (contains name tag) [
    | false ↦ find_leader tag pods join_addr
    | true ↦ elim (pod.pod_ip == []) [
      | true ↦ none
      | false ↦ find_leader tag pods (pod.pod_ip ++ codes ":13000")
    ]
  ]
]

-- What requestKubeConfig sets: the address to listen on for joins, or the one to join at.
pub data Role : Type 0 where
  listens : Bytes → Role
  joins : Bytes → Role

-- requestKubeConfig, for the answer of the Kubernetes API; its errors and `none` end the process
unfoldable pub request_kube_config : Bytes → Option (List Pod) → Option Role
request_kube_config pod_name listed =
    if is_leader pod_name then some (listens (codes ":13000")) else elim listed [
      | none ↦ none
      | some pods ↦ elim (find_leader (leader_tag (pod_index pod_name)) pods []) [
        | none ↦ none
        | some join_addr ↦ if join_addr == [] then none else some (joins join_addr)
      ]
    ]
