-- ===== src/Kvstore/Server/Pipeline.antt =====
-- The goroutines between the connections and HandleRequest: Read of each session of
-- kvstore/sessions.go, the one that Join of kvstore/server.go starts for each session, and Listen.
-- They pass requests over two channels without buffers.
pub mod InOrder
use raft_demo.Base.{ℕ, ◌≡◌, Bool, Option, none, some, List, [], ◌∷◌, ◌++◌, Bytes, update}
use raft_demo.Kvstore.Sessions.{Request}
use raft_demo.Kvstore.Store.{Raft}
use raft_demo.Kvstore.Server.{Server, handle_request}

-- A client: the requests that Read has not come to, the one that Read holds out to the channel of
-- the session, and the one that the goroutine of Join holds out to the channel of the server.
pub record Client : Type 0 where
  pub unread : List Request
  pub reading : Option Request
  pub passing : Option Request

-- The clients, each at its number, the server, and the requests that were handled, with the numbers
-- of their clients.
pub record System : Type 0 where
  pub client : ℕ → Client
  pub server : Server
  pub handled : List (ℕ × Request)

-- One step of a goroutine. At a request of Listen, Raft and the network answer as their state is
-- then; a panic ends the process, and has no step.
pub data Step (s : System) : System → Type 0 where
  reads :
      (i : ℕ) (r : Request) (rest : List Request)
      → (s.client i).unread ≡ r ∷ rest
      → (s.client i).reading ≡ none
      → Step s (record s {
        client = update s.client i (record (s.client i) { unread = rest; reading = some r });
      })
  passes :
      (i : ℕ) (r : Request)
      → (s.client i).reading ≡ some r
      → (s.client i).passing ≡ none
      → Step s (record s {
        client = update s.client i (record (s.client i) { reading = none; passing = some r });
      })
  handles :
      (i : ℕ) (r : Request) (dials : Bytes → Bool) (raft : Raft) (svr : Server)
      → (s.client i).passing ≡ some r
      → handle_request dials raft s.server r ≡ some svr
      → Step s (record s {
        client = update s.client i (record (s.client i) { passing = none });
        server = svr;
        handled = s.handled ++ (i, r) ∷ [];
      })

-- before the first step, for what each client sends
abbrev pub beginning : (ℕ → List Request) → Server → System
beginning sent server = record {
  client = λ i. record { unread = sent i; reading = none; passing = none };
  server = server;
  handled = [];
}

pub data Reach (sent : ℕ → List Request) (server : Server) : System → Type 0 where
  here : Reach sent server (beginning sent server)
  next : {s t : System} → Reach sent server s → Step s t → Reach sent server t
