-- ===== src/Kvstore/Sessions/Outgoing.antt =====
-- kvstore/sessions.go: the session of a client, and what its goroutine Write does with the texts
-- that are sent to the client.
pub mod Unsent
use raft_demo.Base.{ℕ, Bool, true, false, Option, none, some, List, [], ◌∷◌, Bytes, if◌then◌else◌}
use raft_demo.Go.Bufio.Writers.{Writer, new_writer, write_string}

-- Session: the address of the client, its writer with the connection, whether its context is
-- cancelled and its connection closed, and whether Write still runs. The channels have no buffer;
-- what is read is in Kvstore/Sessions.
pub record Session : Type 0 where
  pub address : Bytes
  pub writer : Writer
  pub cancelled : Bool
  pub closed : Bool
  pub writing : Bool

-- NewSession, which starts Write by Listen
unfoldable pub new_session : Bytes → Session
new_session address = record {
  address = address;
  writer = new_writer;
  cancelled = false;
  closed = false;
  writing = true;
}

-- the size of the buffer of bufio.NewWriter
abbrev pub buffer_size : ℕ
buffer_size = 4096

-- one turn of Write: it takes a text from the channel
unfoldable pub write : Session → Bytes → Session
write client text = record client { writer = write_string buffer_size client.writer text }

-- one turn of Write when nothing is sent: it ends if the context is cancelled
unfoldable pub idle : Session → Session
idle client = if client.cancelled then record client { writing = false } else client

-- Disconnect
unfoldable pub disconnect : Session → Session
disconnect client = record client { cancelled = true; closed = true }

-- a send to the channel of a session: `none` is a wait without an end, since nothing receives
unfoldable pub send : Session → Bytes → Option Session
send client text = if client.writing then some (write client text) else none

abbrev pub before : Session → Option (List Session) → Option (List Session)
before client none = none
before client (some clients) = some (client ∷ clients)

-- Broadcast of kvstore/server.go over the sessions of the server
unfoldable pub broadcast : List Session → Bytes → Option (List Session)
broadcast [] text = some []
broadcast (client ∷ clients) text = elim (send client text) [
  | none ↦ none
  | some client' ↦ before client' (broadcast clients text)
]

-- several calls of Broadcast
unfoldable pub broadcasts : List Session → List Bytes → Option (List Session)
broadcasts clients [] = some clients
broadcasts clients (text ∷ ds) = elim (broadcast clients text) [
  | none ↦ none
  | some clients' ↦ broadcasts clients' ds
]
