-- ===== src/Examples/Nodes.antt =====
-- The start of a node of the web store and of a logger, and what the leader does with their requests.
use raft_demo.Base.{
  ℕ, ◌≡◌, ◌≢◌, refl, inl, none, length, take, drop, newline, Bool, true, false, Option, some, List,
  [], ◌∷◌, ◌++◌, Bytes, codes, ◌==◌,
}
use raft_demo.Go.Strings.{contains, has_prefix, split}
use raft_demo.Go.Strconv.{itoa, digits}
use raft_demo.Membership.{handle_join, join_raft, or_fatal}
use raft_demo.Membership.Requests.{join_request}
use raft_demo.Membership.Sample.{sample_cluster}
use raft_demo.Node.{in_memory, bring_up}
use raft_demo.Node.Started.{IsJoining}
use raft_demo.Kvstore.Files.{Stat, not_exist, create_file as store_file}
use raft_demo.Webkvstore.Interface.{KeyValueStore}
use raft_demo.Webkvstore.Store.{
  Raft, follower, refusing, committing, get as get_text, set, delete, propose, apply, dispatch,
}
use raft_demo.Webkvstore.Process.{Running, exit, serve_all, run_main as run_web}
use raft_demo.Webkvstore.Store.Instance.{web_store}
use raft_demo.Webkvstore.Service.{
  MapCodec, Request, Response, no_response, or_error, get_key, set_all, handle_get, handle_post,
  handle_delete, handle_key_request, serve_http,
}
use raft_demo.Webkvstore.Start.{
  Calls, Posted, Flags, config_of, stores_of, open_store, join, new as new_store,
  Process as WebProcess, main as web_main,
}
use raft_demo.Webkvstore.Start.Joins.{request_of, main-serve_http}
use raft_demo.Examples.Web.{codec, empty_store}
use raft_demo.Logger.Setup.{
  Config as LoggerConfig, Instance, init as init_loggers, request_kube_config as find_joins,
  leaders, ids_from, rafts_from, start,
}
use raft_demo.Logger.Start.{
  Started, config_raft as logger_raft, create_file, new_logger, start_raft as start_logger,
  send_join_request as send_logger_request, launch,
}
use raft_demo.Logger.Start.Nonvoter.{launch-handle_join}
use raft_demo.Examples.Starts.{sample_library, pods, everywhere, alone, pod-IsField}

-- A node of the web store joins one that has the name n1.
abbrev texts : Calls
texts = record {
  join_path = λ dir file. dir ++ file;
  opens_bolt = everywhere;
  marshal_join = λ addr id. length addr ∷ (addr ++ id);
}

abbrev join_pairs_of : Bytes → Option (List (Bytes × Bytes))
join_pairs_of (n ∷ s) = some ((codes "addr", take n s) ∷ (codes "id", drop n s) ∷ [])
join_pairs_of [] = none

abbrev json : MapCodec
json = record { decode = join_pairs_of; encode_pair = λ k v. k ++ v }

abbrev flags : Flags
flags = record {
  inmem = true;
  http_addr = codes ":11001";
  raft_addr = codes ":12001";
  join_addr = codes "n1:11000";
  node_id = codes "n2";
  args = codes "/tmp/n2" ∷ [];
}

abbrev taken : Posted → Bool
taken posted = true

abbrev asked : Posted
asked = record {
  url = codes "http://n1:11000/join";
  body = texts.marshal_join (codes ":12001") (codes "n2");
}

abbrev web_process : WebProcess sample_library
web_process = record {
  store = new_store;
  node = (config_of sample_library.default_config (codes "n2"), []);
  posted = some asked;
}

web_run : web_main sample_library texts everywhere taken flags ≡ some web_process
unfolding web_main open_store stores_of config_of bring_up join ◌==◌
web_run = refl

abbrev web_service : KeyValueStore
web_service = web_store codec (λ s. tt) committing sample_cluster

full : codes "n1:11000" ≢ []
full e = cc

main-serve_http_example :
    (dir : Bytes) × (posted : Posted) × (open_store sample_library texts true dir
        (codes ":12001")
        false
        (codes "n2")
      ≡ some web_process.node)
    × (web_process.posted ≡ some posted)
    × (posted.url ≡ codes "http://" ++ codes "n1:11000" ++ codes "/join")
    × (serve_http web_service json (empty_store, alone) (request_of posted)
        ≡ or_error web_service json no_response
            (web_service.join (empty_store, alone) (codes "n2") (codes ":12001")))
main-serve_http_example =
    main-serve_http sample_library texts taken web_service json (empty_store, alone) everywhere
      flags web_process full (inl refl) web_run

abbrev join_pair : Bytes
join_pair = 1 ∷ codes "ab"

-- The same node takes a POST of one key and a GET of it, and a DELETE that its Raft refuses.
abbrev web_requests : List (Raft × Request)
web_requests =
    (committing, record { method = codes "POST"; path = codes "/key"; body = join_pair })
    ∷ (follower, record { method = codes "GET"; path = codes "/key/addr"; body = [] })
    ∷ (refusing, record { method = codes "DELETE"; path = codes "/key/addr"; body = [] })
    ∷ []

abbrev statuses : List Response → List (Option ℕ)
statuses [] = []
statuses (w ∷ ws) = w.status ∷ statuses ws

abbrev statuses_of : Option (Running × List Response) → List (Option ℕ)
statuses_of none = []
statuses_of (some (_, ws)) = statuses ws

abbrev web_outcome : Option (Running × List Response)
web_outcome =
    run_web codec (λ s. tt) sample_cluster json sample_library texts everywhere taken flags alone
      web_requests

web_served : statuses_of web_outcome ≡ none ∷ some 200 ∷ some 500 ∷ []
unfolding run_web serve_all web_main open_store stores_of config_of bring_up join exit serve_http
    handle_key_request handle_get handle_post handle_delete set_all set delete propose apply
    dispatch has_prefix get_key split get_text ◌==◌
web_served = refl

-- A logger process for one application.
abbrev logger_config : LoggerConfig
logger_config = record {
  num_apps = 1;
  log_ids = codes "log7" ∷ [];
  raft_addrs = codes "10.2.0.9:12000" ∷ [];
  join_addrs = codes "10.1.0.2:13000" ∷ [];
}

logger_init : init_loggers 7 (codes "10.2.0.9") (some pods) ≡ some logger_config
unfolding init_loggers find_joins leaders ids_from rafts_from contains has_prefix ◌==◌ itoa digits
logger_init = refl

abbrev no_files : Bytes → Stat
no_files name = not_exist

abbrev started_logger : Started sample_library
started_logger = record {
  logger = record { log_file = record { content = []; offset = 0 }; req = 0 };
  throughput = record { content = []; offset = 0 };
  node = (logger_raft (codes "log7"), []);
  request = (codes "10.1.0.2:13000", codes "log7-10.2.0.9:12000-false" ++ newline ∷ []);
}

launch_run :
    launch sample_library everywhere no_files (codes "/tmp/") logger_config 0 ≡ some started_logger
unfolding launch start new_logger start_logger send_logger_request bring_up join_request create_file
    store_file
launch_run = refl

launch-handle_join_example :
    (i : Instance) × (start logger_config 0 ≡ some i)
    × IsJoining sample_library
        (logger_raft i.log_id)
        i.raft_addr
        (codes "checkpoints/" ++ i.log_id)
        in_memory
        started_logger.node
    × (started_logger.request.0 ≡ i.join_addr)
    × (handle_join sample_cluster alone started_logger.request.1
        ≡ or_fatal sample_cluster (join_raft sample_cluster alone i.log_id i.raft_addr false))
launch-handle_join_example =
    launch-handle_join sample_library everywhere no_files (codes "/tmp/") 7 (codes "10.2.0.9")
      (some pods) logger_config 0 started_logger sample_cluster alone pod-IsField logger_init
      launch_run
