-- ===== src/Logger/Setup.antt =====
-- logger/main.go: the applications that a logger process records.
pub mod Ids
pub mod Started
use raft_demo.Base.{
  ℕ, zero, suc, ◌+◌, Bool, true, false, Option, none, some, List, [], ◌∷◌, ◌++◌, Bytes, codes,
  length, eqb, if◌then◌else◌, ◌==◌, ◌||◌, not, ◌&&◌, get_elem?,
}
use raft_demo.Go.Strings.{split, contains}
use raft_demo.Go.Strconv.{itoa}
use raft_demo.Kvstore.Pods.{Pod}

-- foundMarker[str], for the strings that are marked
unfoldable pub is_found : List Bytes → Bytes → Bool
is_found [] str = false
is_found (x ∷ found) str = x == str || is_found found str

-- the loop of countDiffStrInSlice, over the strings that were found and their number
unfoldable pub count_diff : List Bytes → List Bytes → ℕ → ℕ
count_diff found [] num_diff = num_diff
count_diff found (str ∷ elements) num_diff =
    if is_found found str
    then count_diff found elements num_diff
    else count_diff (str ∷ found) elements (num_diff + 1)

-- countDiffStrInSlice
unfoldable pub count_diff_str_in_slice : List Bytes → ℕ
count_diff_str_in_slice elements = count_diff [] elements 0

-- The global variables: what each application's logger is started with, and their number.
pub record Config : Type 0 where
  pub num_apps : ℕ
  pub log_ids : List Bytes
  pub raft_addrs : List Bytes
  pub join_addrs : List Bytes

-- parseIPsFromArgsConfig, for the values of the flags; `none` is an error
unfoldable pub parse_ips_from_args_config : (logs raft joins : Bytes) → Option Config
parse_ips_from_args_config logs raft joins =
    let ids = split logs b',' in
    let rafts = split raft b',' in
    let services = split joins b',' in
    let n = count_diff_str_in_slice ids in
    let n_raft = count_diff_str_in_slice rafts in
    let n_services = count_diff_str_in_slice services in
    if logs == []
    then none
    else if not (eqb n_services n) || not (eqb n n_raft) || not (eqb n_raft n_services)
    then none
    else some (record { num_apps = n; log_ids = ids; raft_addrs = rafts; join_addrs = services })

-- the loop over the pods; `none` is the panic at a pod without a container status, or a call of
-- log.Fatalln
unfoldable pub leaders : List Pod → Option (List Bytes)
leaders [] = some []
leaders (pod ∷ pods) = elim pod.container [
  | none ↦ none
  | some name ↦ elim (contains name (codes "leader")) [
    | false ↦ leaders pods
    | true ↦ elim (pod.pod_ip == []) [
      | true ↦ none
      | false ↦ elim (leaders pods) [
        | none ↦ none
        | some addrs ↦ some ((pod.pod_ip ++ codes ":13000") ∷ addrs)
      ]
    ]
  ]
]

-- requestKubeConfig, for the answer of the Kubernetes API: the join addresses
unfoldable pub request_kube_config : Option (List Pod) → Option (List Bytes)
request_kube_config listed = elim listed [
  | none ↦ none
  | some pods ↦ elim (leaders pods) [
    | none ↦ none
    | some addrs ↦ if eqb (length addrs) 0 then none else some addrs
  ]
]

-- the identifiers of init, from index i on
unfoldable pub ids_from : ℕ → ℕ → List Bytes → List Bytes
ids_from base_rand i [] = []
ids_from base_rand i (addr ∷ addrs) =
    (codes "log" ++ itoa (base_rand + i)) ∷ ids_from base_rand (i + 1) addrs

-- the Raft addresses of init, from index i on
unfoldable pub rafts_from : Bytes → ℕ → List Bytes → List Bytes
rafts_from ip i [] = []
rafts_from ip i (addr ∷ addrs) = (ip ++ codes ":" ++ itoa (12000 + i)) ∷ rafts_from ip (i + 1) addrs

-- init in Kubernetes, for a random number
unfoldable pub init : ℕ → Bytes → Option (List Pod) → Option Config
init base_rand pod_ip listed = elim (request_kube_config listed) [
  | none ↦ none
  | some addrs ↦ some (record {
    num_apps = length addrs;
    log_ids = ids_from base_rand 0 addrs;
    raft_addrs = rafts_from pod_ip 0 addrs;
    join_addrs = addrs;
  })
]

-- What one goroutine of main starts: a logger, and the join request that it sends.
pub record Instance : Type 0 where
  pub log_id : Bytes
  pub raft_addr : Bytes
  pub join_addr : Bytes

abbrev pub instance_of : Option Bytes → Option Bytes → Option Bytes → Option Instance
instance_of (some i) (some r) (some a) = some (record { log_id = i; raft_addr = r; join_addr = a })
instance_of _ _ _ = none

-- main: what is started at index j; `none` is a panic
unfoldable pub start : Config → ℕ → Option Instance
start config j =
    instance_of (get_elem? config.log_ids j) (get_elem? config.raft_addrs j)
      (get_elem? config.join_addrs j)
