-- ===== src/Kvstore/Server/Throughput.antt =====
-- The counts of the throughput file.
use raft_demo.Base.{
  ℕ, suc, Bool, ◌+◌, ◌%◌, ◌^◌, ◌≡◌, refl, ap, sym, subst, some, List, [], ◌∷◌, ◌++◌, Bytes, length,
  drop, append_assoc, append-nil, arith, Option-cases, inl, inr,
}
use raft_demo.Go.Files.{File}
use raft_demo.Go.Files.Laws.{IsOver, write-IsOver}
use raft_demo.Kvstore.Files.{Stat, create_file, line}
use raft_demo.Kvstore.Sessions.{Request}
use raft_demo.Kvstore.Store.{Raft}
use raft_demo.Kvstore.Server.{
  Server, start_server, after_proposal, send_udp, handle_request, join_client, tick, Event,
  incoming, joins, timer, listen,
}

abbrev pub sum : List ℕ → ℕ
sum [] = 0
sum (n ∷ ns) = n + sum ns

-- the lines of some numbers
abbrev pub lines : List ℕ → Bytes
lines [] = []
lines (n ∷ ns) = line n ++ lines ns

-- how many requests there are among the events
abbrev pub requests : List Event → ℕ
requests [] = 0
requests (incoming dials raft cmd ∷ es) = suc (requests es)
requests (joins connection ∷ es) = requests es
requests (timer ∷ es) = requests es

-- how often the timer fires
abbrev pub ticks : List Event → ℕ
ticks [] = 0
ticks (incoming dials raft cmd ∷ es) = ticks es
ticks (joins connection ∷ es) = ticks es
ticks (timer ∷ es) = suc (ticks es)

-- Over old bytes the numbers have been written in a row behind what was written before.
abbrev pub IsWritten : Bytes → Bytes → File → List ℕ → Type 0
IsWritten old written file ns = IsOver old (written ++ lines ns) file

handle_request-req :
    (dials : List ℕ → Bool) (raft : Raft) (svr svr' : Server) (cmd : Request)
    → handle_request dials raft svr cmd ≡ some svr'
    → (svr'.req ≡ (svr.req + 1) % 2 ^ 64) × (svr'.throughput ≡ svr.throughput)
unfolding handle_request after_proposal send_udp
handle_request-req dials raft svr svr' cmd e = ground arith

-- one more number in front of those of the later ticks
pub IsWritten-line :
    (old written : Bytes) (file : File) (n : ℕ) (ns : List ℕ)
    → IsWritten old (written ++ line n) file ns
    → IsWritten old written file (n ∷ ns)
IsWritten-line old written file n ns =
    subst (λ w. IsOver old w file) (append_assoc written (line n) (lines ns))

listen-IsWritten :
    (old written : Bytes) (svr svr' : Server) (es : List Event)
    → IsOver old written svr.throughput
    → listen svr es ≡ some svr'
    → (ns : List ℕ) × IsWritten old written svr'.throughput ns
      × (length ns ≡ ticks es)
      × ((sum ns + svr'.req) % 2 ^ 64 ≡ (svr.req + requests es) % 2 ^ 64)
unfolding listen tick join_client
listen-IsWritten old written svr svr' [] o e =
    let same : svr ≡ svr' = cc in
    (
      [],
      subst (λ s. IsOver old (written ++ []) s.throughput) same (rw (append-nil written) o),
      refl,
      omega (arith, ap (λ s. s.req) same),
    )
listen-IsWritten old written svr svr' (incoming dials raft cmd ∷ es) o e =
    elim (Option-cases (handle_request dials raft svr cmd)) [
      | inl n ↦ absurd (ground (arith, e, n))
      | inr (mid, h) ↦
          let (req, kept) = handle_request-req dials raft svr mid cmd h in
          let (ns, w, ts, total) =
            listen-IsWritten old written mid svr' es
              (subst (λ f. IsOver old written f) (sym kept) o) (rw (listen, h) at e) in
          (ns, w, ts, omega (arith, req, total))
    ]
listen-IsWritten old written svr svr' (joins c ∷ es) o e =
    listen-IsWritten old written (join_client svr c) svr' es o e
listen-IsWritten old written svr svr' (timer ∷ es) o e =
    let (ns, w, ts, total) =
      listen-IsWritten old (written ++ line svr.req) (tick svr) svr' es
        (write-IsOver old written (line svr.req) svr.throughput o) e in
    (
      svr.req ∷ ns,
      IsWritten-line old written svr'.throughput svr.req ns w,
      omega (arith, ts),
      omega (arith, total),
    )

start_server-IsOver :
    (stat : Stat) (svr : Server)
    → start_server stat ≡ some svr
    → IsOver svr.throughput.content [] svr.throughput × (svr.req ≡ 0)
unfolding start_server create_file
start_server-IsOver stat svr h = ground (arith, h)

-- Take a server that could be started over the throughput file of an earlier run, or a new one. In
-- every interleaving of the clients' requests, new connections and ticks of the monitor that ends
-- with no panic, the file then begins with one line for each tick, behind which stands what these
-- lines do not cover of the old bytes. No request is lost and none is counted twice: the numbers in
-- these lines and the counter add up to the number of requests (modulo 2^64).
pub counted-listen :
    (stat : Stat) (svr svr' : Server) (es : List Event)
    → start_server stat ≡ some svr
    → listen svr es ≡ some svr'
    → (ns : List ℕ) × (svr'.throughput.content
        ≡ lines ns ++ drop (length (lines ns)) svr.throughput.content)
      × (length ns ≡ ticks es)
      × ((sum ns + svr'.req) % 2 ^ 64 ≡ requests es % 2 ^ 64)
counted-listen stat svr svr' es started heard =
    let (over, zero_req) = start_server-IsOver stat svr started in
    let (ns, w, ts, total) = listen-IsWritten svr.throughput.content [] svr svr' es over heard in
    (ns, w.0, ts, omega (arith, total, zero_req))
