-- ===== src/ChatRoom/Server/Broadcasts.antt =====
-- Apply of chatRoom/server/fsmServer.go and Join: what the clients receive.
use raft_demo.Base.{
  ◌≡◌, refl, ap, false, Option, none, some, List, [], ◌∷◌, ◌++◌, append_assoc, append-nil,
  All-append, Bytes, dash, All,
}
use raft_demo.Go.Strings.{split, join}
use raft_demo.Go.Strings.Laws.{split-append}
use raft_demo.Go.Strconv.{itoa}
use raft_demo.Go.Strconv.Laws.{itoa-injective, itoa-Lacks}
use raft_demo.Pb.{Log}
use raft_demo.ChatRoom.Server.{
  Session, Server, new_session, join_client, broadcast_text, send_all, apply,
}

-- If the same text is sent to the clients for two entries, the entries have the same index.
pub broadcast_text-injective :
    (l l' : Log) → broadcast_text l ≡ broadcast_text l' → l.index ≡ l'.index
unfolding broadcast_text join
broadcast_text-injective l l' e = itoa-injective l.index l'.index (
    cc (
      split-append (itoa l.index) l.bytes dash (itoa-Lacks dash refl l.index),
      split-append (itoa l'.index) l'.bytes dash (itoa-Lacks dash refl l'.index),
      ap (λ (s : Bytes). split s dash) e,
    ))

-- What happens to the server: an entry is committed, or a client joins.
pub data Event : Type 0 where
  commit : Log → Event
  join_event : Event

-- the events in their order; `none` where the process ended by a panic
unfoldable pub run : Server → List Event → Option Server
run s [] = some s
run s (commit l ∷ es) = elim (apply s l) [ none ↦ none | some s' ↦ run s' es ]
run s (join_event ∷ es) = run (join_client s) es

-- the texts of the entries among the events
unfoldable pub texts : List Event → List Bytes
texts [] = []
texts (commit l ∷ es) = broadcast_text l ∷ texts es
texts (join_event ∷ es) = texts es

-- the clients that join, each with the texts of the entries behind it
unfoldable pub joined : List Event → List Session
joined [] = []
joined (commit l ∷ es) = joined es
joined (join_event ∷ es) = record { written = texts es; closed = false } ∷ joined es

-- open sessions that have written some texts more
unfoldable pub extend : List Session → List Bytes → List Session
extend [] ts = []
extend (c ∷ cs) ts = record c { written = c.written ++ ts } ∷ extend cs ts

abbrev pub IsOpen : Session → Type 0
IsOpen c = c.closed ≡ false

send_all-extend :
    (cs : List Session) (t : Bytes) → All IsOpen cs → send_all cs t ≡ some (extend cs (t ∷ []))
unfolding send_all extend
send_all-extend [] t h = refl
send_all-extend (c ∷ cs) t (o, h) = rw (send_all, o, send_all-extend cs t h) (rw (o))

extend-extend :
    (cs : List Session) (ts us : List Bytes) → extend (extend cs ts) us ≡ extend cs (ts ++ us)
unfolding extend
extend-extend [] ts us = refl
extend-extend (c ∷ cs) ts us = rw (append_assoc c.written ts us, extend-extend cs ts us)

extend-nil : (cs : List Session) → extend cs [] ≡ cs
unfolding extend
extend-nil [] = refl
extend-nil (c ∷ cs) = rw (append-nil c.written, extend-nil cs)

extend-append :
    (cs ds : List Session) (ts : List Bytes) → extend (cs ++ ds) ts ≡ extend cs ts ++ extend ds ts
unfolding extend
extend-append [] ds ts = refl
extend-append (c ∷ cs) ds ts =
    ap (λ (l : List Session). record c { written = c.written ++ ts } ∷ l) (extend-append cs ds ts)

extend-IsOpen : (cs : List Session) (ts : List Bytes) → All IsOpen cs → All IsOpen (extend cs ts)
unfolding extend
extend-IsOpen [] ts h = tt
extend-IsOpen (c ∷ cs) ts (o, h) = (o, extend-IsOpen cs ts h)

-- From a server whose sessions are open, no committed entry makes the process panic. Every client
-- receives, in the order of the commits and each once, the messages of all entries that are
-- committed after it has joined, and nothing else.
pub run-extend :
    (s : Server) (es : List Event)
    → All IsOpen s.clients
    → run s es ≡ some (record s { clients = extend s.clients (texts es) ++ joined es })
unfolding run texts joined apply join_client extend
run-extend s [] h = rw (extend-nil s.clients, append-nil s.clients)
run-extend s (commit l ∷ es) h = rw (
  run,
  apply,
  send_all-extend s.clients (broadcast_text l) h,
  run-extend (record s { clients = extend s.clients (broadcast_text l ∷ []) }) es
      (extend-IsOpen s.clients (broadcast_text l ∷ []) h),
  extend-extend s.clients (broadcast_text l ∷ []) (texts es),
)
run-extend s (join_event ∷ es) h = rw (
  run-extend (join_client s) es (All-append IsOpen s.clients (new_session ∷ []) h (refl, tt)),
  extend-append s.clients (new_session ∷ []) (texts es),
  append_assoc (extend s.clients (texts es)) (extend (new_session ∷ []) (texts es)) (joined es),
)
