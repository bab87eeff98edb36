-- ===== src/Client/Start/Unanswered.antt =====
-- A text request, as README.md describes it, from the client to the state machine of kvstore/.
use raft_demo.Base.{
  ℕ, ◌+◌, ◌%◌, ◌^◌, ◌≡◌, ap, sym, append-nil, ◌∙◌, Bool, true, false, none, some, List, [], ◌∷◌,
  ◌++◌, Bytes, codes, newline, length, Lacks, arith, ◌==◌,
}
use raft_demo.Base.Dict
use raft_demo.Base.Dict.{get-put_self}
use raft_demo.Go.Strings.{has_prefix}
use raft_demo.Go.Strings.Laws.{trim_suffix-concat}
use raft_demo.Go.Flags.{parse}
use raft_demo.Pb.{Codec}
use raft_demo.Client.Kube.{from_kube, new}
use raft_demo.Client.Commands.Answered.{leader_of}
use raft_demo.Client.Connect.Replicas.{AllDial, told, connect-told}
use raft_demo.Client.Main.{waiting, message_of, main_loop}
use raft_demo.Client.Main.Asked.{typed, write_each-more, read-messages_of, stream_of, messages_of}
use raft_demo.Client.Start.{World, looping, start_udp, serve, main}
use raft_demo.Kvstore.Fsm.{Store, apply}
use raft_demo.Kvstore.Server.{Server, handle_request, after_proposal}
use raft_demo.Kvstore.Sessions.{Request, host, read}
use raft_demo.Kvstore.Sessions.Framing.{requests_of}
use raft_demo.Kvstore.Store.{propose, answer}

-- the request that a replica reads of a line
abbrev pub asked_of : Bytes → Bytes → Request
asked_of address line = record {
  command = message_of 15000 line ++ newline ∷ [];
  ip = host address;
}

-- a leader that cannot unmarshal a request counts it and an error, and sends nothing
handle_request-unreadable :
    (pb : Codec) (f : Store) (index : ℕ) (svr : Server) (dials : Bytes → Bool)
    → (line address : Bytes) → pb.unmarshal (message_of 15000 line) ≡ none
    → handle_request dials (leader_of pb f index) svr (asked_of address line)
      ≡ some (record svr { req = (svr.req + 1) % 2 ^ 64; errors = svr.errors + 1 })
unfolding handle_request after_proposal propose answer apply
handle_request-unreadable pb f index svr dials line address unreadable =
    rw (trim_suffix-concat (message_of 15000 line) newline) (ground (arith, unreadable))

main_loop-waiting :
    (n : ℕ) (line : Bytes)
    → has_prefix (typed line) (codes "exit") ≡ false
    → main_loop 15000 (told n []) (typed line ∷ []) []
      ≡ waiting (told n (message_of 15000 (typed line ++ newline ∷ []))) []
unfolding main_loop
main_loop-waiting n line stays =
    ground (arith, stays, write_each-more n [] (message_of 15000 (typed line ++ newline ∷ [])))

read-asked_of :
    (line address : Bytes)
    → Lacks newline line
    → read address (message_of 15000 (typed line ++ newline ∷ [])) ≡ asked_of address line ∷ []
unfolding stream_of messages_of requests_of
read-asked_of line address lines =
    let sent = message_of 15000 (typed line ++ newline ∷ []) in
    ap (read address) (sym (append-nil sent))
    ∙ read-messages_of 15000 address (line ∷ []) (lines, tt)

-- Take a client in a pod that is told the addresses of its replicas, and a line that is typed at it
-- and does not start with "exit", and that protobuf cannot unmarshal with the port in front of it.
-- Every replica reads one request for the line; the leader counts an error for it and sends nothing;
-- and with no datagram the client waits for one.
pub main-unanswered :
    (world : World) (ips : List Bytes) (line address : Bytes) (pb : Codec) (f : Store) (index : ℕ)
    → (svr : Server) (dials : Bytes → Bool) → world.env ≡ some (from_kube ips)
    → AllDial world.dials ips
    → world.listens_udp world.pod_ip 15000 ≡ true
    → world.texts ≡ typed line ∷ []
    → world.datagrams ≡ []
    → has_prefix (typed line) (codes "exit") ≡ false
    → Lacks newline line
    → pb.unmarshal (message_of 15000 line) ≡ none
    → (stream : Bytes) × (main world [] ≡ looping (waiting (told (length ips) stream) []))
      × (read address stream ≡ asked_of address line ∷ [])
      × (handle_request dials (leader_of pb f index) svr (asked_of address line)
          ≡ some (record svr { req = (svr.req + 1) % 2 ^ 64; errors = svr.errors + 1 }))
unfolding main serve start_udp new parse ◌==◌
main-unanswered world ips line address pb f index svr dials kube dialled bound texts silent stays
      lines unreadable =
    let sent = message_of 15000 (typed line ++ newline ∷ []) in
    (
      sent,
      rw
          (
            get-put_self Dict.empty (codes "config") (codes "client-config.toml"),
            kube,
            serve,
            connect-told world.dials ips dialled,
            bound,
            texts,
            silent,
          )
          (ap looping (main_loop-waiting (length ips) line stays)),
      read-asked_of line address lines,
      handle_request-unreadable pb f index svr dials line address unreadable,
    )
