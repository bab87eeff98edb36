-- ===== src/Diskstorage/Server.antt =====
-- diskstorage/sessions.go, diskstorage/server.go and diskstorage/main.go, which are those of
-- kvstore/ up to the type of the store.
pub mod Exit
use raft_demo.Base.{Bool, Option, List, Bytes}
use raft_demo.Kvstore.Sessions.{Request}
use raft_demo.Kvstore.Sessions.Outgoing.{Session}
use raft_demo.Kvstore.Files.{Stat}
use raft_demo.Kvstore.Options.{Env}
use raft_demo.Kvstore.Store.{Raft}
use raft_demo.Kvstore.Server.{Server, Event}
use raft_demo.Kvstore.Pods.{Pod, Role}
use raft_demo.Go.Strconv.{ℤ}

-- Read of a session, over what a client with this address sends
unfoldable pub read : Bytes → Bytes → List Request
read address stream = raft_demo.Kvstore.Sessions.read address stream

-- NewSession
unfoldable pub new_session : Bytes → Session
new_session address = raft_demo.Kvstore.Sessions.Outgoing.new_session address

-- one turn of Write of a session
unfoldable pub write : Session → Bytes → Session
write client text = raft_demo.Kvstore.Sessions.Outgoing.write client text

-- Disconnect
unfoldable pub disconnect : Session → Session
disconnect client = raft_demo.Kvstore.Sessions.Outgoing.disconnect client

-- NewServer
unfoldable pub start_server : Stat → Option Server
start_server stat = raft_demo.Kvstore.Server.start_server stat

-- Broadcast over the sessions
unfoldable pub broadcast : List Session → Bytes → Option (List Session)
broadcast clients text = raft_demo.Kvstore.Sessions.Outgoing.broadcast clients text

-- SendUDP
unfoldable pub send_udp : (Bytes → Bool) → Server → Bytes → Bytes → Option Server
send_udp dials svr address message = raft_demo.Kvstore.Server.send_udp dials svr address message

-- validateReq
unfoldable pub validate_req : (Bytes → Bytes) → Bytes → Option Bool
validate_req to_lower requisition =
    raft_demo.Kvstore.Server.Validate.validate_req to_lower requisition

-- HandleRequest
unfoldable pub handle_request : (Bytes → Bool) → Raft → Server → Request → Option Server
handle_request dials raft svr cmd = raft_demo.Kvstore.Server.handle_request dials raft svr cmd

-- Join
unfoldable pub join_client : Server → Bytes → Server
join_client svr connection = raft_demo.Kvstore.Server.join_client svr connection

-- one tick of monitor
unfoldable pub tick : Server → Server
tick svr = raft_demo.Kvstore.Server.tick svr

-- Listen and monitor over the events
unfoldable pub listen : Server → List Event → Option Server
listen svr events = raft_demo.Kvstore.Server.listen svr events

-- loadEnvVariables
unfoldable pub load_env_variables : (Bytes → Option Bytes) → Option Env
load_env_variables lookup_env = raft_demo.Kvstore.Options.load_env_variables lookup_env

-- the index in a pod's name, as loadEnvVariables reads it
unfoldable pub pod_index : Bytes → ℤ
pod_index pod_name = raft_demo.Kvstore.Pods.pod_index pod_name

-- isLeader
unfoldable pub is_leader : Bytes → Bool
is_leader pod_name = raft_demo.Kvstore.Pods.is_leader pod_name

-- the loop of requestKubeConfig over the pods
unfoldable pub find_leader : Bytes → List Pod → Bytes → Option Bytes
find_leader tag pods join_addr = raft_demo.Kvstore.Pods.find_leader tag pods join_addr

-- requestKubeConfig
unfoldable pub request_kube_config : Bytes → Option (List Pod) → Option Role
request_kube_config pod_name listed = raft_demo.Kvstore.Pods.request_kube_config pod_name listed
