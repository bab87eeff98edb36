-- ===== src/Kvstore/Sessions/Outgoing/Unsent.antt =====
-- What reaches the clients of a broadcast.
use raft_demo.Base.{
  ◌+◌, ◌≤◌, ◌≡◌, refl, ap, sym, subst, ◌∙◌, true, some, List, [], ◌∷◌, ◌++◌, append-nil,
  append_assoc, Bytes, length, length-append, concat, All, arith,
}
use raft_demo.Go.Bufio.Writers.{write_string, write_string-held}
use raft_demo.Kvstore.Sessions.Outgoing.{
  Session, write, new_session, send, buffer_size, disconnect, broadcast, broadcasts,
}
use raft_demo.Kvstore.Server.Exit.{Running, sessions, disconnect_all, exit}

-- A session whose Write runs and has not flushed anything, with these texts in its buffer.
abbrev pub Buffered : Bytes → Session → Type 0
Buffered texts client =
    (client.writing ≡ true) × (client.writer ≡ record { held = texts; written = [] })

send-Buffered :
    (texts text : Bytes) (client : Session)
    → length texts + length text ≤ buffer_size
    → Buffered texts client
    → (client' : Session) × (send client text ≡ some client') × Buffered (texts ++ text) client'
unfolding send write
send-Buffered texts text client fits (runs, holds) =
    let held : (write_string buffer_size client.writer text)
        ≡ record { held = texts ++ text; written = [] } =
      ap (λ w. write_string buffer_size w text) holds
      ∙ write_string-held buffer_size (record { held = texts; written = [] }) text fits in
    (write client text, rw runs refl, (runs, held))

broadcast-Buffered :
    (texts text : Bytes) (clients : List Session)
    → length texts + length text ≤ buffer_size
    → All (Buffered texts) clients
    → (clients' : List Session) × (broadcast clients text ≡ some clients')
      × All (Buffered (texts ++ text)) clients'
unfolding broadcast
broadcast-Buffered texts text [] fits hs = ([], refl, tt)
broadcast-Buffered texts text (client ∷ clients) fits (h, hs) =
    let (client', sent, h') = send-Buffered texts text client fits h in
    let (clients', later, hs') = broadcast-Buffered texts text clients fits hs in
    (client' ∷ clients', ground (arith, sent, later), (h', hs'))

broadcasts-Buffered :
    (texts : Bytes) (more : List Bytes) (clients : List Session)
    → length texts + length (concat more) ≤ buffer_size
    → All (Buffered texts) clients
    → (clients' : List Session) × (broadcasts clients more ≡ some clients')
      × All (Buffered (texts ++ concat more)) clients'
unfolding broadcasts
broadcasts-Buffered texts [] clients fits hs =
    (clients, refl, subst (λ l. All (Buffered l) clients) (sym (append-nil texts)) hs)
broadcasts-Buffered texts (text ∷ more) clients fits hs =
    let split = length-append text (concat more) in
    let (clients', sent, hs') = broadcast-Buffered texts text clients (omega arith) hs in
    let (last, later, hs'') =
      broadcasts-Buffered (texts ++ text) more clients' (omega (arith, length-append texts text))
        hs' in
    (
      last,
      ground (arith, sent, later),
      subst (λ l. All (Buffered l) last) (append_assoc texts text (concat more)) hs'',
    )

-- Closed, with nothing sent to the client.
abbrev pub IsUnsent : Session → Type 0
IsUnsent client = (client.closed ≡ true) × (client.writer.written ≡ [])

disconnect_all-IsUnsent :
    (texts : Bytes) (clients : List Session)
    → All (Buffered texts) clients
    → All IsUnsent (disconnect_all clients)
unfolding disconnect_all disconnect
disconnect_all-IsUnsent texts [] hs = tt
disconnect_all-IsUnsent texts (client ∷ clients) ((runs, holds), hs) =
    ((refl, ap (λ w. w.written) holds), disconnect_all-IsUnsent texts clients hs)

sessions-Buffered : (addresses : List Bytes) → All (Buffered []) (sessions addresses)
unfolding sessions new_session
sessions-Buffered [] = tt
sessions-Buffered (address ∷ addresses) = ((refl, refl), sessions-Buffered addresses)

-- Calls of Broadcast with at most 4096 bytes in all come to their ends, and when Exit has closed the
-- connections no client has received any of them.
pub broadcasts-IsUnsent :
    (svr : Running) (addresses texts : List Bytes)
    → length (concat texts) ≤ 4096
    → (clients : List Session) × (broadcasts (sessions addresses) texts ≡ some clients)
      × All IsUnsent (exit (record svr { clients = clients })).clients
unfolding exit
broadcasts-IsUnsent svr addresses texts fits =
    let (clients, sent, held) =
      broadcasts-Buffered [] texts (sessions addresses) (omega arith)
        (sessions-Buffered addresses) in
    (clients, sent, disconnect_all-IsUnsent (concat texts) clients held)
