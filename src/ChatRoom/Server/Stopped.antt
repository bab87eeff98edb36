-- ===== src/ChatRoom/Server/Stopped.antt =====
-- Shutdown of chatRoom/server/chatServer.go, and the entries that are committed after it.
use raft_demo.Base.{◌≡◌, ◌≢◌, refl, none, some, List, [], ◌∷◌, Bytes, arith, Option-cases, inl, inr}
use raft_demo.Pb.{Log}
use raft_demo.ChatRoom.Server.{
  Session, Server, disconnect, disconnect_all, shutdown, send_all, broadcast_text, apply,
}

send_all-disconnect_all :
    (clients after : List Session) (text : Bytes)
    → clients ≢ []
    → disconnect_all clients ≡ some after
    → send_all after text ≡ none
unfolding disconnect_all disconnect send_all
send_all-disconnect_all [] after text some_client e = absurd (some_client refl)
send_all-disconnect_all (c ∷ cs) after text some_client e =
    elim (Option-cases (disconnect_all cs)) [
      | inl p ↦ ground (arith, e, p)
      | inr (later, p) ↦ ground (arith, e, p)
    ]

-- Of a server with a client, Shutdown closes the channels of the sessions while Raft goes on: if it
-- returns, then the next entry that is committed makes the process panic.
pub apply-shutdown :
    (svr after : Server) (l : Log)
    → svr.clients ≢ []
    → shutdown svr ≡ some after
    → apply after l ≡ none
unfolding shutdown apply
apply-shutdown svr after l some_client e = elim (Option-cases (disconnect_all svr.clients)) [
  | inl p ↦ ground (arith, e, p)
  | inr (clients, p) ↦
      ground
        (arith, e, p, send_all-disconnect_all svr.clients clients (broadcast_text l) some_client p)
]
