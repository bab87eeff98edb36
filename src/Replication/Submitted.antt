-- ===== src/Replication/Submitted.antt =====
-- A request that a client has sent to every replica, as all its clients do: each replica handles it
-- by HandleRequest of kvstore/server.go, and proposes it if it is the leader then.
use raft_demo.Base.{
  ℕ, zero, suc, ◌+◌, ◌%◌, ◌^◌, ◌≡◌, refl, ap, ◌∙◌, Bool, true, false, Option, none, some, List, [],
  ◌∷◌, ◌++◌, Bytes, codes, newline, dash, length, length-append, Lacks, arith, if◌then◌else◌, ◌==◌,
  Bool-cases, inl, inr,
}
use raft_demo.Base.Dict
use raft_demo.Base.Dict.{Dict, get-put, get-put_self}
use raft_demo.Go.Strings.{trim_suffix}
use raft_demo.Pb.{set, Command, Log, Codec}
use raft_demo.Kvstore.Fsm.{Store, response, respond, apply_set, dispatch, apply}
use raft_demo.Kvstore.Fsm.Logged.{m-log_command}
use raft_demo.Kvstore.Sessions.{Request}
use raft_demo.Kvstore.Store.{Raft, applied, propose}
use raft_demo.Kvstore.Store.Proposals.{propose-respond, before_dash}
use raft_demo.Kvstore.Server.{Server, handle_request, after_proposal, send_udp}

-- A replica when it handles the request: whether Raft says that it leads, and its server.
pub record Member : Type 0 where
  pub leads : Bool
  pub server : Server

-- the bytes that HandleRequest proposes
abbrev pub proposal_of : Request → Bytes
proposal_of r = trim_suffix r.command (newline ∷ [])

abbrev pub entry_of : ℕ → Request → Log
entry_of index r = record { index = index; bytes = proposal_of r }

-- Raft at a replica, which commits a proposal at an index if the replica leads
abbrev pub raft_at : Codec → Store → ℕ → Bool → Raft
raft_at pb f index leads = record {
  is_leader = leads;
  apply = λ msg. applied (apply pb f (record { index = index; bytes = msg })).1;
}

-- All replicas handle the request, one after the other: the state that the committed entries make,
-- the next index, and the servers behind it. `none` is a panic of one of them.
unfoldable pub submit :
    Codec → (Bytes → Bool) → Store → ℕ → List Member → Request → Option (Store × ℕ × List Server)
submit pb dials f index [] r = some (f, index, [])
submit pb dials f index (m ∷ ms) r =
    let f' = if m.leads then (apply pb f (entry_of index r)).0 else f in
    let index' = if m.leads then suc index else index in
    elim (handle_request dials (raft_at pb f index m.leads) m.server r) [
      | none ↦ none
      | some svr ↦ elim (submit pb dials f' index' ms r) [
        | none ↦ none
        | some (last, next, svrs) ↦ some (last, next, svr ∷ svrs)
      ]
    ]

abbrev pub leaders : List Member → ℕ
leaders [] = 0
leaders (m ∷ ms) = if m.leads then suc (leaders ms) else leaders ms

-- the datagrams that servers have sent
abbrev pub datagrams : List Server → ℕ
datagrams [] = 0
datagrams (svr ∷ svrs) = length svr.sent + datagrams svrs

abbrev pub servers_of : List Member → List Server
servers_of [] = []
servers_of (m ∷ ms) = m.server ∷ servers_of ms

-- the servers behind the request: one that answers, and one that does not
abbrev pub counted : Server → Server
counted svr = record svr { req = (svr.req + 1) % 2 ^ 64 }

abbrev pub replying : Server → Request → Command → Server
replying svr r c = record (counted svr) {
  sent = svr.sent ++ (r.ip ++ (codes ":" ++ c.ip), codes "OK: " ++ (newline ∷ [])) ∷ [];
}

abbrev pub stored : Dict Bytes → Command → ℕ → Bytes → Option Bytes
stored m c zero k = Dict.get m k
stored m c (suc n) k = if c.key == k then some c.value else Dict.get m k

stored_again :
    (f : Store) (c : Command) (f' : Store)
    → f'.m ≡ Dict.put f.m c.key c.value
    → (n : ℕ) (k : Bytes) → stored f'.m c n k ≡ stored f.m c (suc n) k
stored_again f c f' e zero k = ap (λ m. Dict.get m k) e ∙ get-put f.m c.key k c.value
stored_again f c f' e (suc n) k = ground (arith, e, get-put f.m c.key k c.value)

module _ (pb : Codec) (dials : Bytes → Bool) (r : Request) (c : Command) where
  handle_request-leader :
      (f : Store) (index : ℕ) (svr : Server)
      → pb.unmarshal (proposal_of r) ≡ some c
      → c.op ≡ set
      → Lacks dash c.ip
      → dials (r.ip ++ (codes ":" ++ c.ip)) ≡ true
      → handle_request dials (raft_at pb f index true) svr r ≡ some (replying svr r c)
  unfolding handle_request after_proposal send_udp apply dispatch apply_set before_dash
  handle_request-leader f index svr read is_set plain reachable =
      let outcome : (apply pb f (entry_of index r)).1 ≡ response (respond c.ip []) =
        ground (arith, read, is_set) in
      let replied_to =
        propose-respond (raft_at pb f index true) (proposal_of r) r.ip c.ip [] refl
          (ap applied outcome) plain in
      rw (replied_to, reachable) refl

  handle_request-follower :
      (f : Store) (index : ℕ) (svr : Server)
      → handle_request dials (raft_at pb f index false) svr r ≡ some (counted svr)
  unfolding handle_request after_proposal propose
  handle_request-follower f index svr = refl

  m-apply :
      (f : Store) (index : ℕ)
      → pb.unmarshal (proposal_of r) ≡ some c
      → c.op ≡ set
      → (apply pb f (entry_of index r)).0.m ≡ Dict.put f.m c.key c.value
  unfolding apply dispatch apply_set
  m-apply f index read is_set =
      ground (
        arith,
        read,
        is_set,
        m-log_command pb (record f { m = Dict.put f.m c.key c.value }) index c,
      )

  -- Take a SET that all replicas have read, and that is answered at a port which can be dialled. No
  -- replica panics. The command is committed once, and one datagram is sent, for each replica that
  -- leads when it handles the request, however many these are; if there is any, every key has the
  -- value that it has after one SET, and if there is none, nothing is committed or sent.
  pub submit-stored :
      (f : Store) (index : ℕ) (ms : List Member) (k : Bytes)
      → pb.unmarshal (proposal_of r) ≡ some c
      → c.op ≡ set
      → Lacks dash c.ip
      → dials (r.ip ++ (codes ":" ++ c.ip)) ≡ true
      → (last : Store) × (svrs : List Server) × (submit pb dials f index ms r
          ≡ some (last, index + leaders ms, svrs))
        × (datagrams svrs ≡ datagrams (servers_of ms) + leaders ms)
        × (Dict.get last.m k ≡ stored f.m c (leaders ms) k)
  unfolding submit
  submit-stored f index [] k read is_set plain reachable =
      (f, [], ap (λ n. some (f, n, [])) (omega arith), refl, refl)
  submit-stored f index (m ∷ ms) k read is_set plain reachable = elim (Bool-cases m.leads) [
    | inl leads ↦
        let f' = (apply pb f (entry_of index r)).0 in
        let (last, svrs, ran, sent, kept) =
          submit-stored f' (suc index) ms k read is_set plain reachable in
        let answered = handle_request-leader f index m.server read is_set plain reachable in
        let next : suc index + leaders ms ≡ index + suc (leaders ms) = omega arith in
        let more =
          length-append m.server.sent
            ((r.ip ++ (codes ":" ++ c.ip), codes "OK: " ++ (newline ∷ [])) ∷ []) in
        (
          last,
          replying m.server r c ∷ svrs,
          ground (arith, leads, answered, ran, next),
          ground (arith, leads, sent, more),
          kept
              ∙ ground
                  (arith, leads, stored_again f c f' (m-apply f index read is_set) (leaders ms) k),
        )
    | inr follows ↦
        let (last, svrs, ran, sent, kept) =
          submit-stored f index ms k read is_set plain reachable in
        let ignored = handle_request-follower f index m.server in
        (
          last,
          counted m.server ∷ svrs,
          ground (arith, follows, ignored, ran),
          ground (arith, follows, sent),
          ground (arith, follows, kept),
        )
  ]
