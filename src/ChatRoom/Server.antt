-- ===== src/ChatRoom/Server.antt =====
-- chatRoom/server/: the server of the chat room, its state machine and its sessions.
pub mod Broadcasts
pub mod Stopped
pub mod Start
use raft_demo.Base.{
  ℕ, Bool, true, false, Option, none, some, List, [], ◌∷◌, ◌++◌, Bytes, dash, length, ltb,
  if◌then◌else◌,
}
use raft_demo.Go.Strings.{join}
use raft_demo.Go.Strconv.{itoa}
use raft_demo.Pb.{Log}
use raft_demo.Kvstore.Sessions.{lines}
use raft_demo.Membership.{Cluster}
use raft_demo.Membership

-- Session: what Write has written to the connection, and whether the channels are closed
pub record Session : Type 0 where
  pub written : List Bytes
  pub closed : Bool

-- NewSession
abbrev pub new_session : Session
new_session = record { written = []; closed = false }

-- the bytes that Write has sent: the texts, each flushed
unfoldable pub sent_by : List Bytes → Bytes
sent_by [] = []
sent_by (text ∷ outgoing) = text ++ sent_by outgoing

-- Disconnect, of a session that is open; a second close of a channel panics
unfoldable pub disconnect : Session → Option Session
disconnect client = if client.closed then none else some (record client { closed = true })

-- The fields of Server: the sessions, the messages that were handed to Raft, and whether its own
-- channels are closed.
pub record Server : Type 0 where
  pub clients : List Session
  pub proposed : List Bytes
  pub closed : Bool

-- Join
unfoldable pub join_client : Server → Server
join_client svr = record svr { clients = svr.clients ++ new_session ∷ [] }

-- One round of Listen for a message; Raft is asked for its state, and its answer is not looked at.
unfoldable pub listen_message : Bool → Server → Bytes → Server
listen_message is_leader svr message =
    if is_leader then record svr { proposed = svr.proposed ++ message ∷ [] } else svr

-- what is sent to the clients for an entry
unfoldable pub broadcast_text : Log → Bytes
broadcast_text l = join (itoa l.index ∷ l.bytes ∷ []) (dash ∷ [])

-- the loop of Apply over the clients; `none` is the panic of a send on a closed channel
unfoldable pub send_all : List Session → Bytes → Option (List Session)
send_all [] text = some []
send_all (client ∷ clients) text = elim client.closed [
  | true ↦ none
  | false ↦ elim (send_all clients text) [
    | none ↦ none
    | some clients' ↦ some (record client { written = client.written ++ text ∷ [] } ∷ clients')
  ]
]

-- Apply
unfoldable pub apply : Server → Log → Option Server
apply s l = elim (send_all s.clients (broadcast_text l)) [
  | none ↦ none
  | some clients ↦ some (record s { clients = clients })
]

-- Snapshot and Restore: nil for the snapshot, and the server as it was; neither has an error
unfoldable pub snapshot : Server → Option Bytes × Bool
snapshot s = (none, true)

unfoldable pub restore : Server → Bytes → Server × Bool
restore s rc = (s, true)

-- the loop of Shutdown over the clients
unfoldable pub disconnect_all : List Session → Option (List Session)
disconnect_all [] = some []
disconnect_all (client ∷ clients) = elim (disconnect client) [
  | none ↦ none
  | some client' ↦ elim (disconnect_all clients) [
    | none ↦ none
    | some clients' ↦ some (client' ∷ clients')
  ]
]

-- Shutdown; the instance of Raft goes on
unfoldable pub shutdown : Server → Option Server
shutdown svr = if svr.closed then none else elim (disconnect_all svr.clients) [
  | none ↦ none
  | some clients ↦ some (record svr { clients = clients; closed = true })
]

-- the lines that are longer than their end
unfoldable pub long_lines : List Bytes → List Bytes
long_lines [] = []
long_lines (line ∷ ls) =
    let later = long_lines ls in if ltb 1 (length line) then line ∷ later else later

-- Read of a session, over what the client sends
unfoldable pub read : Bytes → List Bytes
read stream = long_lines (lines [] stream)

-- JoinRaft and one round of ListenRaftJoins, which are those of kvstore/store.go up to the log
-- lines
unfoldable pub join_raft : (c : Cluster) → c.State → Bytes → Bytes → Bool → c.State × Bool
join_raft c s node_id addr voter = Membership.join_raft c s node_id addr voter

unfoldable pub listen_raft_joins : (c : Cluster) → c.State → Bytes → Option c.State
listen_raft_joins c s stream = Membership.handle_join c s stream
