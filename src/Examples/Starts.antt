-- ===== src/Examples/Starts.antt =====
-- The start of the programs, and what the leader does with their requests.
use raft_demo.Base.{
  none, ◌≡◌, ◌≢◌, ◌↔◌, refl, inl, inr, newline, Bool, true, false, get_or, get_elem?, some, List,
  [], ◌∷◌, ◌++◌, Bytes, codes, ◌==◌, arith, ap,
}
use raft_demo.Go.Strings.{split, contains, has_prefix}
use raft_demo.Go.Strconv.{itoa, digits}
use raft_demo.Base.Dict
use raft_demo.Go.Strings.{trim_suffix}
use raft_demo.Go.Strconv.{parse_bool, atoi, scan}
use raft_demo.Go.Bufio.{read_string}
use raft_demo.Membership.{Server, In, clear, handle_join, join_raft}
use raft_demo.Membership.Requests.{IsField, join_request}
use raft_demo.Membership.Sample.{sample_cluster}
use raft_demo.Membership.Unique.{IsUnique}
use raft_demo.Node.{Config, Library, bring_up}
use raft_demo.Kvstore.Files.{new_file, not_exist, create_file as store_file}
use raft_demo.Kvstore.Pods.{Pod, is_leader, request_kube_config, find_leader, leader_tag, pod_index}
use raft_demo.Kvstore.Server.{new_server, start_server}
use raft_demo.Kvstore.Setup.{new, new_store, listen_at, pre_initialize}
use raft_demo.Kvstore.Start.{
  Settings, Process, config_raft, start_raft, send_join_request, init, main,
}
use raft_demo.Kvstore.Start.Joining.{IsStarted, main-IsStarted}
use raft_demo.Kvstore.Start.Evicted.{server_of, tag_of, handle_join-tag_of}

abbrev pub sample_library : Library
sample_library = record {
  Address = Bytes;
  Transport = Bytes;
  Snapshots = Bytes;
  Node = Config × List Server;
  resolve_tcp_addr = some;
  new_tcp_transport = λ bind addr. some addr;
  local_addr = λ transport. transport;
  new_file_snapshot_store = λ dir retain. some dir;
  default_config = record {
    local_id = [];
    snapshot_interval = 120;
    snapshot_threshold = 8192;
    log_level = codes "DEBUG";
  };
  new_raft = λ config stores snapshots transport. some (config, []);
  bootstrap_cluster = λ node servers. (node.0, servers);
}

abbrev pub pods : List Pod
pods = record { container = some (codes "leader-1"); pod_ip = codes "10.1.0.2" } ∷ []

abbrev pub found : Settings
found = record {
  server_id = codes "node9";
  server_port = codes ":11000";
  raft_addr = codes "10.2.0.9:12000";
  join_addr = codes "10.1.0.2:13000";
  join_handler_addr = [];
}

test_init : init (codes "10.2.0.9") (codes "app-follower-1") (some pods) ≡ some found
unfolding init is_leader contains has_prefix ◌==◌ split request_kube_config find_leader leader_tag
    pod_index atoi itoa digits scan
test_init = refl

abbrev pub everywhere : Bytes → Bool
everywhere address = true

abbrev follower : Process sample_library
follower = record {
  opened = record {
    store = record {
      m = Dict.empty;
      logging = false;
      log_file = record { content = []; offset = 0 };
    };
    joins_at = none;
    transfers_at = none;
  };
  node = (config_raft (codes "node9"), []);
  server = new_server new_file;
  requests = (codes "10.1.0.2:13000", codes "node9-10.2.0.9:12000-true" ++ newline ∷ []) ∷ [];
}

main_run :
    main sample_library everywhere everywhere [] [] not_exist not_exist 0 found ≡ some follower
unfolding main start_raft start_server store_file bring_up new new_store listen_at pre_initialize
    send_join_request join_request ◌==◌
main_run = refl

main-IsStarted_example :
    IsStarted sample_library
      (is_leader (codes "app-follower-1"))
      found
      follower.opened.joins_at
      follower.node
      follower.requests
main-IsStarted_example =
    main-IsStarted sample_library everywhere everywhere [] [] not_exist not_exist 0
      (codes "10.2.0.9") (codes "app-follower-1") (some pods) found follower test_init main_run

-- A leader of another network, with the same last part in its address.
abbrev pub found_leader : Settings
found_leader = record {
  server_id = codes "node9";
  server_port = codes ":11000";
  raft_addr = codes "10.1.0.9:12000";
  join_addr = [];
  join_handler_addr = codes ":13000";
}

test_init_leader : init (codes "10.1.0.9") (codes "leader-1") (some []) ≡ some found_leader
unfolding init is_leader contains has_prefix ◌==◌ split request_kube_config
test_init_leader = refl

abbrev pub alone : List Server
alone = server_of found_leader ∷ []

same_alone : (x : Server) → In x alone → x ≡ server_of found_leader
same_alone x (inl e) = e
same_alone x (inr h) = absurd h

unique : IsUnique alone
unique = record {
  ids = λ x y hx hy e. cc (same_alone x hx, same_alone y hy);
  addresses = λ x y hx hy e. cc (same_alone x hx, same_alone y hy);
}

abbrev after : List Server
after = server_of found ∷ []

join_run :
    handle_join sample_cluster alone (join_request found.server_id found.raft_addr true)
    ≡ some after
unfolding handle_join join_raft clear ◌==◌ split join_request read_string trim_suffix parse_bool
join_run = refl

apart : codes "10.1.0.9" ≢ codes "10.2.0.9"
apart e = omega (arith, ap (λ (s : Bytes). get_or (get_elem? s 3) 0) e)

pub pod-IsField : IsField (codes "10.2.0.9")
pod-IsField = record { no_dash = omega arith; one_line = omega arith }

handle_join-tag_of_example :
    In (server_of found_leader) after
    ↔ (In (server_of found_leader) alone × (tag_of (codes "10.1.0.9") ≢ tag_of (codes "10.2.0.9")))
handle_join-tag_of_example =
    handle_join-tag_of sample_cluster alone after alone (codes "10.1.0.9") (codes "10.2.0.9")
      (codes "leader-1") (codes "app-follower-1") (some []) (some pods) found_leader found apart
      pod-IsField test_init_leader test_init refl unique join_run
