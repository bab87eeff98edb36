-- ===== src/Client/Kube.antt =====
-- client/seqClient.go: the replicas that a client in Kubernetes sends its commands to.
pub mod Apps
use raft_demo.Base.{
  ℕ, zero, suc, Bool, true, false, Option, none, some, List, [], ◌∷◌, ◌++◌, Bytes, codes, dash,
  if◌then◌else◌, ◌==◌, ◌&&◌, not, get_or, length,
}
use raft_demo.Go.Strings.{contains}
use raft_demo.Go.Strconv.{ℤ, pos, negsuc, itoa}
use raft_demo.Kvstore.Pods.{Pod, pod_index}

unfoldable pub pod_filter : ℤ → Bytes
pod_filter (pos i) = codes "-" ++ itoa i
pod_filter (negsuc i) = []

unfoldable pub is_app : Bytes → Bytes → Bool
is_app filter name = contains name filter && not (contains name (codes "logger"))

-- the loop over the pods; `none` is the panic at a pod without a container status, or a call of
-- log.Fatalln
unfoldable pub app_ips : Bytes → Bytes → List Pod → Option (List Bytes)
app_ips own_ip filter [] = some []
app_ips own_ip filter (pod ∷ pods) = elim pod.container [
  | none ↦ none
  | some name ↦ elim (is_app filter name) [
    | false ↦ app_ips own_ip filter pods
    | true ↦ elim (pod.pod_ip == []) [
      | true ↦ none
      | false ↦ elim (app_ips own_ip filter pods) [
        | none ↦ none
        | some ips ↦
            some (if pod.pod_ip == own_ip then ips else (pod.pod_ip ++ codes ":11000") ∷ ips)
      ]
    ]
  ]
]

-- getAppsFromKube, for the answer of the Kubernetes API; `none` is an error or the end of the
-- process
unfoldable pub get_apps_from_kube : Option Bytes → Option (List Pod) → ℤ → Option (List Bytes)
get_apps_from_kube my_pod_ip listed index = elim listed [
  | none ↦ none
  | some pods ↦ app_ips (get_or my_pod_ip (codes "127.0.0.1")) (pod_filter index) pods
]

-- What checkKubernetesEnv tells New: the addresses, or nil, for which the toml file is read.
pub data Env : Type 0 where
  from_kube : List Bytes → Env
  from_toml : Env

-- checkKubernetesEnv; `none` is a call of log.Fatalln
unfoldable pub check_kubernetes_env : Option Bytes → Option Bytes → Option (List Pod) → Option Env
check_kubernetes_env my_pod_name my_pod_ip listed = elim my_pod_name [
  | none ↦ some from_toml
  | some pod_name ↦ elim (get_apps_from_kube my_pod_ip listed (pod_index pod_name)) [
    | none ↦ none
    | some ips ↦ some (from_kube ips)
  ]
]

-- The fields of Info that New sets.
pub record Info : Type 0 where
  pub rep : ℕ
  pub svr_ips : List Bytes
  pub local_ip : Bytes
  pub udp_port : ℕ
  pub thinking_time_msec : ℕ

-- New, for what toml.DecodeFile gives; `none` is an error or the end of the process
unfoldable pub new : Option Env → Bytes → Option Info → Option Info
new none pod_ip decoded = none
new (some (from_kube ips)) pod_ip decoded = some (record {
  rep = length ips;
  svr_ips = ips;
  local_ip = pod_ip;
  udp_port = 15000;
  thinking_time_msec = 10;
})
new (some from_toml) pod_ip decoded = decoded
