-- ===== src/Client/Commands/Answered.antt =====
-- A GET from the client over the leader to the client's UDP port.
use raft_demo.Base.{
  ℕ, ◌+◌, ◌%◌, ◌^◌, ◌≡◌, refl, ap, Bool, true, some, List, [], ◌∷◌, ◌++◌, Bytes, codes, newline,
  dash, Lacks, get_or,
}
use raft_demo.Base.Dict
use raft_demo.Go.Strings.{trim_suffix}
use raft_demo.Pb.{get, Command, Log, Codec}
use raft_demo.Kvstore.Fsm.{Store, apply, run}
use raft_demo.Kvstore.Fsm.Logged.{logged}
use raft_demo.Kvstore.Fsm.Replies.{last_set, apply-run-get}
use raft_demo.Recovery.State.Install.{or_else}
use raft_demo.Kvstore.Sessions.{Request, host, read}
use raft_demo.Kvstore.Sessions.Framing.{IsSendable}
use raft_demo.Kvstore.Store.{Raft, applied}
use raft_demo.Kvstore.Store.Proposals.{before_dash, propose-respond}
use raft_demo.Kvstore.Server.{Server, handle_request, after_proposal, send_udp}
use raft_demo.Client.Commands.Delivery.{sent_command, delivered}

-- Raft on a leader that commits a proposal at an index, and applies it to the state machine.
abbrev pub leader_of : Codec → Store → ℕ → Raft
leader_of pb f index = record {
  is_leader = true;
  apply = λ msg. applied (apply pb f (record { index = index; bytes = msg })).1;
}

-- the value of a key after entries, with the empty text for a missing one
abbrev pub value_after : Codec → Store → List Log → Bytes → Bytes
value_after pb f ls key = get_or (or_else (last_set key (logged pb ls)) (Dict.get f.m key)) []

-- Take a GET that is marshalled with the client's port for its IP, the port with no dash and the
-- bytes with no newline, and a network that takes the port at the client's host. The leader, which
-- has applied some entries and commits what it proposes, reads one request from the client's
-- connection. It handles it with a datagram to the port at the client's host: "OK: ", and the value
-- that the last SET of the key among the entries stored (or the value from before, or the empty
-- text), up to the first dash in it. The counter goes up by one.
pub handle_request-read :
    (pb : Codec) (f : Store) (ls : List Log) (index : ℕ) (svr : Server) (c : Command)
    (port address : Bytes) (dials : Bytes → Bool)
    → c.op ≡ get
    → (pb.marshal (sent_command pb c port)).1 ≡ true
    → IsSendable (pb.marshal (sent_command pb c port)).0
    → Lacks dash port
    → dials (host address ++ (codes ":" ++ port)) ≡ true
    → (r : Request) × (read address ((pb.marshal (sent_command pb c port)).0 ++ newline ∷ [])
        ≡ r ∷ [])
      × (handle_request dials (leader_of pb (run pb f ls) index) svr r
          ≡ some (record svr {
            req = (svr.req + 1) % 2 ^ 64;
            sent =
                svr.sent
                ++ (
                  host address ++ (codes ":" ++ port),
                  codes "OK: " ++ (before_dash (value_after pb f ls c.key) ++ newline ∷ []),
                )
                  ∷ [];
          }))
unfolding handle_request after_proposal send_udp
handle_request-read pb f ls index svr c port address dials is_get e s h reachable =
    let (r, one, ip, bytes) = delivered pb c port s e address in
    let msg = trim_suffix r.command (newline ∷ []) in
    let replied_to =
      propose-respond (leader_of pb (run pb f ls) index) msg r.ip port (value_after pb f ls c.key)
        refl
        (ap applied
          (apply-run-get pb f ls (record { index = index; bytes = msg }) (sent_command pb c port)
            bytes is_get).0)
        h in
    (r, one, rw (handle_request, replied_to, ip, after_proposal, send_udp, reachable))
