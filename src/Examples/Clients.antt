-- ===== src/Examples/Clients.antt =====
-- What the clients send, and what they make of the answers.
use raft_demo.Base.{
  ◌≡◌, ◌≤◌, refl, Bool, true, false, Option, none, some, List, [], ◌∷◌, ◌++◌, Bytes, codes, newline,
  length, Lacks, All, arith, eqb, if◌then◌else◌, ◌==◌,
}
use raft_demo.Go.Strings.{contains, has_prefix}
use raft_demo.Pb.Sample.{sample_codec}
use raft_demo.ChatRoom.Queue.{MessageQueue, returned, new_mq, contains as holds}
use raft_demo.ChatRoom.Client.{consume_all}
use raft_demo.ChatRoom.Client.Heard.{consume_all-run}
use raft_demo.ChatRoom.Server.{Session, Server, sent_by, long_lines, read}
use raft_demo.ChatRoom.Server.Broadcasts.{Event, commit, join_event, run, texts}
use raft_demo.ChatRoom.Client.Typed.{main}
use raft_demo.ChatRoom.Client.Typed.Delivered.{map_typed, standing, has_exit, until_exit, main-read}
use raft_demo.Client.Connect.{done, crashed, connect}
use raft_demo.Client.Connect.Replicas.{told, first_message, connect-write_each}
use raft_demo.Kvstore.Sessions.{read as read_requests}
use raft_demo.Kvstore.Sessions.Framing.{requests_of}
use raft_demo.Client.Kube.{from_kube}
use raft_demo.Client.Start.{World, looping, main as seq_main}
use raft_demo.Client.Start.Reached.{main-requests_of}
use raft_demo.Client.Main.Asked.{
  map_typed as map_asked, standing as asked_standing, has_exit as asked_exit,
  until_exit as until_asked, messages_of, replies_of,
}
use raft_demo.Logger.Serialize.{serialized, serialize_in_protobuf}
use raft_demo.Logger.Serialize.Texts.{Ask, setting, text_of, asked, serialize_in_protobuf-text_of}

abbrev everywhere : Bytes → Bool
everywhere address = true

abbrev addresses : List Bytes
addresses = codes "a:1" ∷ codes "b:1" ∷ []

-- A client that is told of a third replica, without its address, crashes at its first message.
connect-write_each_example :
    first_message (connect everywhere 3 addresses) (codes "hi")
    ≡ some (if eqb 3 (length addresses) then done (told 3 (codes "hi")) else crashed)
connect-write_each_example =
    connect-write_each everywhere 3 addresses (codes "hi") (refl, (refl, tt))

abbrev said : List Bytes
said = codes "hello" ∷ [] ∷ codes "exit" ∷ []

said_lines : All (Lacks newline) said
said_lines = (omega arith, (tt, (omega arith, tt)))

main-read_example :
    (stream : Bytes) × (main
        (codes "c.toml")
        (some (record { rep = 2; svr_ips = addresses; mqueue_size = 5 }))
        everywhere
        (map_typed said)
      ≡ standing (has_exit said) (told 2 stream))
    × (read stream ≡ long_lines (until_exit said))
main-read_example =
    main-read (codes "c.toml") addresses 5 everywhere said (λ e. cc) (refl, (refl, tt)) said_lines

said_test : has_exit said ≡ true
unfolding has_exit contains has_prefix ◌==◌
said_test = refl

abbrev datagrams : List (Option Bytes)
datagrams = some (codes "OK: 1") ∷ none ∷ []

enough : length (until_asked said) ≤ length datagrams
unfolding until_asked has_prefix ◌==◌
enough = omega arith

abbrev seq_world : World
seq_world = record {
  dials = everywhere;
  listens_udp = λ ip port. true;
  env = some (from_kube addresses);
  pod_ip = codes "10.0.0.9";
  decoded = λ name. none;
  texts = map_asked said;
  datagrams = datagrams;
}

main-requests_of_example :
    (stream : Bytes) × (seq_main seq_world []
      ≡ looping (
          asked_standing
            (asked_exit said)
            (told 2 stream)
            (replies_of (until_asked said) datagrams)))
    × (read_requests (codes "10.0.0.7:5000") stream
        ≡ requests_of (codes "10.0.0.7:5000") (messages_of 15000 (until_asked said)))
main-requests_of_example =
    main-requests_of seq_world addresses said (codes "10.0.0.7:5000") refl (refl, (refl, tt)) refl
      refl said_lines enough

abbrev as_it_is : Bytes → Bytes
as_it_is s = s

abbrev set_k : Ask
set_k = setting (codes "k") (codes "v")

serialize_in_protobuf-text_of_example :
    (bytes : Bytes) × (serialize_in_protobuf sample_codec as_it_is
        (text_of (codes "15000") set_k ++ newline ∷ [])
        7
      ≡ serialized bytes)
    × (sample_codec.unmarshal bytes ≡ some (asked 7 (codes "15000") set_k))
serialize_in_protobuf-text_of_example =
    serialize_in_protobuf-text_of as_it_is (codes "15000") set_k sample_codec 7 refl (omega arith)
      (omega arith, omega arith) refl

abbrev room : Server
room = record { clients = []; proposed = []; closed = false }

abbrev happened : List Event
happened = commit (record { index = 3; bytes = codes "hi" ++ newline ∷ [] }) ∷ join_event ∷ []

consume_all-run_example :
    (before : List Session) × (c : Session) × (later : List Session) × (mq : MessageQueue)
    × (out : List Bytes) × (run room (join_event ∷ happened)
        ≡ some (record room { clients = before ++ c ∷ later }))
    × (consume_all (new_mq 2 false) (read (sent_by c.written)) ≡ returned mq out)
    × (holds out (codes "3-hi" ++ newline ∷ [])
        ≡ holds (texts happened) (codes "3-hi" ++ newline ∷ []))
consume_all-run_example =
    consume_all-run room happened 2 (codes "3-hi" ++ newline ∷ []) tt
      ((codes "hi", refl, omega arith), tt) (omega arith) (λ e. cc)
