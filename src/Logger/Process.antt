-- ===== src/Logger/Process.antt =====
-- logger/main.go: init with the environment and the flags, and main with the goroutines that make
-- the loggers and with its end at a signal.
pub mod Stopped
use raft_demo.Base.{
  ℕ, suc, Bool, true, false, Option, none, some, List, [], ◌∷◌, ◌++◌, ◌≡◌, Bytes, codes, replicate,
  get_elem?, set_elem, get_or,
}
use raft_demo.Base.Dict
use raft_demo.Base.Dict.{Dict}
use raft_demo.Go.Flags.{assign, parse}
use raft_demo.Node.{◌>>=◌}
use raft_demo.Pb.{Log, Codec}
use raft_demo.Kvstore.Pods.{Pod}
use raft_demo.Logger.Fsm.{Logger, apply}
use raft_demo.Logger.Setup.{Config, parse_ips_from_args_config}

-- The global variables that loadEnvVariables sets.
pub record Env : Type 0 where
  pub pod_ip : Bytes
  pub pod_name : Bytes
  pub pod_namespace : Bytes

-- loadEnvVariables, for what os.LookupEnv finds; `none` is an error
unfoldable pub load_env_variables : (Bytes → Option Bytes) → Option Env
load_env_variables lookup_env = do
  ip ← lookup_env (codes "MY_POD_IP")
  name ← lookup_env (codes "MY_POD_NAME")
  namespace ← lookup_env (codes "MY_POD_NAMESPACE")
  some (record { pod_ip = ip; pod_name = name; pod_namespace = namespace })

-- What init leaves in the global variables.
pub record Options : Type 0 where
  pub config : Config
  pub recov_handler_addr : Bytes
  pub logfolder : Bytes

abbrev pub default_folder : Bytes
default_folder = codes "/tmp/"

-- the flags of init and of parseIPsFromArgsConfig, each with its default
abbrev pub logger_flags : List (Bytes × Bytes)
logger_flags =
    (codes "logfolder", default_folder)
    ∷ (codes "id", [])
    ∷ (codes "raft", codes ":12000")
    ∷ (codes "join", codes ":13000")
    ∷ (codes "hrecov", [])
    ∷ []

abbrev pub value_of : Dict Bytes → Bytes → Bytes
value_of flags name = get_or (Dict.get flags name) []

-- init, for the constant staticIPs, which is false, a random number, the environment, the answer of
-- the Kubernetes API and the arguments of the command. Only parseIPsFromArgsConfig calls
-- flag.Parse. `none` is the end of the process.
unfoldable pub init :
    Bool → ℕ → (Bytes → Option Bytes) → Option (List Pod) → List Bytes → Option Options
init true base_rand lookup_env listed args = do
  flags ← parse (assign Dict.empty logger_flags) args
  config ←
      parse_ips_from_args_config (value_of flags (codes "id")) (value_of flags (codes "raft"))
        (value_of flags (codes "join"))
  some (record {
    config = config;
    recov_handler_addr = value_of flags (codes "hrecov");
    logfolder = value_of flags (codes "logfolder");
  })
init false base_rand lookup_env listed args = do
  env ← load_env_variables lookup_env
  config ← raft_demo.Logger.Setup.init base_rand env.pod_ip listed
  some (record { config = config; recov_handler_addr = []; logfolder = default_folder })

-- One of loggerInstances: the logger, whether its context is cancelled and its log file open.
pub record Running : Type 0 where
  pub logger : Logger
  pub cancelled : Bool
  pub log_open : Bool

abbrev pub running : Logger → Running
running l = record { logger = l; cancelled = false; log_open = true }

-- loggerInstances, in which an instance is nil until its goroutine has come through NewLogger
abbrev pub Instances : Type 0
Instances = List (Option Running)

-- The states of main for a number of applications while it waits for a signal, with the number of
-- loggers that were made: a goroutine makes its logger, or Raft hands an entry to a logger.
pub data Reach (pb : Codec) (num_apps : ℕ) : ℕ → Instances → Type 0 where
  started : Reach pb num_apps 0 (replicate num_apps none)
  made :
      {m : ℕ} {s : Instances} (j : ℕ) (l : Logger)
      → Reach pb num_apps m s
      → get_elem? s j ≡ some none
      → Reach pb num_apps (suc m) (set_elem s j (some (running l)))
  applied :
      {m : ℕ} {s : Instances} (j : ℕ) (x : Running) (entry : Log)
      → Reach pb num_apps m s
      → get_elem? s j ≡ some (some x)
      → Reach pb num_apps m
          (set_elem s j (some (record x { logger = (apply pb x.logger entry).0 })))

-- the loop at the end of main; `none` is the panic at an instance that is nil
unfoldable pub stop : Instances → Option (List Running)
stop [] = some []
stop (none ∷ ls) = none
stop (some l ∷ ls) = elim (stop ls) [
  | none ↦ none
  | some stopped ↦ some (record l { cancelled = true; log_open = false } ∷ stopped)
]
