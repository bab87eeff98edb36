-- ===== src/Kvstore/Options.antt =====
-- init of kvstore/main.go: the environment of a pod and the flags of the command line.
pub mod Documented
use raft_demo.Base.{
  Bool, true, false, not, Option, none, some, List, [], ◌∷◌, ◌++◌, Bytes, codes, get_or, ◌==◌,
  if◌then◌else◌,
}
use raft_demo.Base.Dict
use raft_demo.Base.Dict.{Dict}
use raft_demo.Go.Flags.{assign, parse}
use raft_demo.Go.Strconv.{ℤ}
use raft_demo.Node.{guard, ◌>>=◌}
use raft_demo.Kvstore.Pods.{Pod, pod_index}
use raft_demo.Kvstore.Start.{Settings}

-- The global variables that loadEnvVariables sets.
pub record Env : Type 0 where
  pub pod_ip : Bytes
  pub pod_namespace : Bytes
  pub pod_name : Bytes
  pub pod_index : ℤ

-- loadEnvVariables, for what os.LookupEnv finds; `none` is a call of log.Fatalln
unfoldable pub load_env_variables : (Bytes → Option Bytes) → Option Env
load_env_variables lookup_env = do
  ip ← lookup_env (codes "MY_POD_IP")
  namespace ← lookup_env (codes "MY_POD_NAMESPACE")
  name ← lookup_env (codes "MY_POD_NAME")
  some (record {
    pod_ip = ip;
    pod_namespace = namespace;
    pod_name = name;
    pod_index = pod_index name;
  })

-- the flags that init defines, each with its default
abbrev pub own_flags : List (Bytes × Bytes)
own_flags = (codes "cpuprofile", []) ∷ (codes "memprofile", []) ∷ (codes "logfolder", []) ∷ []

-- parseIPsFromArgsConfig
abbrev pub parse_ips_from_args_config : List (Bytes × Bytes)
parse_ips_from_args_config =
    (codes "id", [])
    ∷ (codes "port", codes ":11000")
    ∷ (codes "raft", codes ":12000")
    ∷ (codes "join", [])
    ∷ (codes "hjoin", [])
    ∷ (codes "hrecov", [])
    ∷ []

abbrev pub value_of : Dict Bytes → Bytes → Bytes
value_of flags name = get_or (Dict.get flags name) []

-- What init leaves in the global variables of main.
pub record Options : Type 0 where
  pub settings : Settings
  pub recov_handler_addr : Bytes
  pub cpuprofile : Bytes
  pub memprofile : Bytes
  pub logfolder : Bytes

unfoldable pub options_of : Settings → Dict Bytes → Options
options_of settings flags = record {
  settings = settings;
  recov_handler_addr = value_of flags (codes "hrecov");
  cpuprofile = value_of flags (codes "cpuprofile");
  memprofile = value_of flags (codes "memprofile");
  logfolder = value_of flags (codes "logfolder");
}

abbrev pub addresses_of : Dict Bytes → Settings
addresses_of flags = record {
  server_id = value_of flags (codes "id");
  server_port = value_of flags (codes "port");
  raft_addr = value_of flags (codes "raft");
  join_addr = value_of flags (codes "join");
  join_handler_addr = value_of flags (codes "hjoin");
}

-- init, for the constant staticIPs, which is false, the environment, the answer of the Kubernetes
-- API and the arguments of the command; `none` is the end of the process
unfoldable pub init :
    Bool → (Bytes → Option Bytes) → Option (List Pod) → List Bytes → Option Options
init true lookup_env listed args = do
  flags ← parse (assign Dict.empty (parse_ips_from_args_config ++ own_flags)) args
  _ ← guard (not (value_of flags (codes "id") == []))
  some (options_of (addresses_of flags) flags)
init false lookup_env listed args = do
  env ← load_env_variables lookup_env
  settings ← raft_demo.Kvstore.Start.init env.pod_ip env.pod_name listed
  flags ← parse (assign Dict.empty own_flags) args
  _ ← guard (not (settings.server_id == []))
  some (options_of settings flags)
