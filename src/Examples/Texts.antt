-- ===== src/Examples/Texts.antt =====
-- A text request of README.md, and a SET that two leaders read.
use raft_demo.Base.{
  ℕ, ◌≡◌, refl, true, false, Option, none, some, List, [], ◌∷◌, ◌++◌, Bytes, codes, newline, arith,
  ◌==◌, eqb, if◌then◌else◌, update, ◌⊎◌,
}
use raft_demo.Base.Dict
use raft_demo.Go.Strconv.{itoa, digits}
use raft_demo.Go.Strings.{has_prefix, trim_suffix, split}
use raft_demo.Pb.{Command, Codec}
use raft_demo.Pb.Sample.{sample_codec, encode, decode, decode-encode}
use raft_demo.Kvstore.Fsm.{Store}
use raft_demo.Kvstore.Files.{new_file}
use raft_demo.Kvstore.Server.{Server, new_server, handle_request}
use raft_demo.Kvstore.Sessions.{Request, read, lines, to_requests, host}
use raft_demo.Kvstore.Server.Pipeline.{System, Step, reads, beginning, Reach, here, next}
use raft_demo.Kvstore.Server.Pipeline.InOrder.{of_client, waiting as waiting_of, of_client-Reach}
use raft_demo.Client.Kube.{from_kube}
use raft_demo.Client.Connect.Replicas.{told}
use raft_demo.Client.Main.{waiting}
use raft_demo.Client.Main.Asked.{typed}
use raft_demo.Client.Commands.Answered.{leader_of}
use raft_demo.Client.Start.{World, looping, main}
use raft_demo.Client.Start.Unanswered.{asked_of, main-unanswered}
use raft_demo.Replication.Submitted.{Member, submit, datagrams, stored, submit-stored}
use raft_demo.Examples.Logs.{start, put_a}
use raft_demo.Examples.Starts.{everywhere}

-- a codec whose encodings begin with a byte that no text has
abbrev marked : Bytes → Option Command
marked (b ∷ s) = if eqb b 255 then decode s else none
marked [] = none

abbrev marking : Codec
marking = record {
  unmarshal = marked;
  marshal = λ c. (255 ∷ encode c, true);
  unmarshal-marshal = λ c h. decode-encode c;
  marshal_of_read = λ s c id h l. refl;
  marshal_pos = λ c h l. omega arith;
}

abbrev question : Bytes
question = codes "get-k"

abbrev world : World
world = record {
  dials = everywhere;
  listens_udp = λ ip port. true;
  env = some (from_kube (codes "10.1.0.2:11000" ∷ []));
  pod_ip = codes "10.0.0.9";
  decoded = λ name. none;
  texts = typed question ∷ [];
  datagrams = [];
}

main-unanswered_example :
    (stream : Bytes) × (main world [] ≡ looping (waiting (told 1 stream) []))
    × (read (codes "10.0.0.9:5000") stream ≡ asked_of (codes "10.0.0.9:5000") question ∷ [])
    × (handle_request everywhere
          (leader_of marking start 1)
          (new_server new_file)
          (asked_of (codes "10.0.0.9:5000") question)
        ≡ some (record (new_server new_file) { req = 1; errors = 1 }))
unfolding has_prefix ◌==◌ itoa digits
main-unanswered_example =
    main-unanswered world (codes "10.1.0.2:11000" ∷ []) question (codes "10.0.0.9:5000") marking
      start 1 (new_server new_file) everywhere refl (refl, tt) refl refl refl refl
      (omega arith, (omega arith, (omega arith, (omega arith, (omega arith, tt))))) refl

abbrev set_request : Request
set_request = record { command = encode put_a ++ newline ∷ []; ip = codes "10.0.0.9" }

-- a change of the leader while the replicas read the request
abbrev members : List Member
members =
    record { leads = true; server = (new_server new_file) }
    ∷ record { leads = false; server = (new_server new_file) }
    ∷ record { leads = true; server = (new_server new_file) }
    ∷ []

submit-stored_example :
    (last : Store) × (svrs : List Server) × (submit sample_codec everywhere start 7 members
        set_request
      ≡ some (last, 9, svrs))
    × (datagrams svrs ≡ 2)
    × (Dict.get last.m (codes "a") ≡ stored start.m put_a 2 (codes "a"))
unfolding trim_suffix
submit-stored_example =
    submit-stored sample_codec everywhere set_request put_a start 7 members (codes "a") refl refl
      (omega arith, (omega arith, (omega arith, (omega arith, (omega arith, tt))))) refl

-- every client sends one line
abbrev one_line : ℕ → Bytes
one_line i = question ++ newline ∷ []

abbrev one_address : ℕ → Bytes
one_address i = codes "10.0.0.9:5000"

abbrev sent : ℕ → List Request
sent i = read (one_address i) (one_line i)

abbrev first_request : Request
first_request = record { command = question ++ newline ∷ []; ip = codes "10.0.0.9" }

-- the first client's line is read and passed on
abbrev once_read : System
once_read = record (beginning sent (new_server new_file)) {
  client =
      update (beginning sent (new_server new_file)).client 0
        (record { unread = []; reading = some first_request; passing = none });
}

reached : Reach sent (new_server new_file) once_read
unfolding read lines to_requests host split
reached = next here (reads 0 first_request [] refl refl)

of_client-Reach_example :
    (of_client 1 once_read.handled ++ waiting_of (once_read.client 1)
      ≡ read (one_address 1) (one_line 1))
    × ((waiting_of (once_read.client 1) ≡ []) ⊎ ((t : System) × Step once_read t))
of_client-Reach_example =
    of_client-Reach one_address one_line (new_server new_file) once_read 1 reached
