-- ===== src/Examples/Requests.antt =====
-- Requests of clients and of joining nodes.
use raft_demo.Base.{
  ℕ, length, drop, Bool, none, ◌+◌, ◌%◌, ◌^◌, ◌≡◌, refl, true, false, some, List, [], ◌∷◌, ◌++◌,
  Bytes, codes, newline, arith, inl, inr, ◌==◌,
}
use raft_demo.Go.Strings.{split}
use raft_demo.Kvstore.Fsm.{Store, run, response, respond}
use raft_demo.Client.Commands.Delivery.{sent_command}
use raft_demo.Pb.Sample.{encode, decode-encode}
use raft_demo.Kvstore.Sessions.{Request, host, read}
use raft_demo.Kvstore.Store.{Raft, applied, propose}
use raft_demo.Kvstore.Store.Proposals.{before_dash}
use raft_demo.Kvstore.Files.{exists, create_file, new_file, line}
use raft_demo.Go.Files.{File, write, overwrite}
use raft_demo.Go.Strconv.{itoa, digits}
use raft_demo.Kvstore.Server.{
  Server, new_server, start_server, handle_request, after_proposal, send_udp, join_client, tick,
  Event, incoming, joins, timer, listen,
}
use raft_demo.Kvstore.Server.Throughput.{sum, lines, requests, ticks, counted-listen}
use raft_demo.Membership.{Server as Node, In, clear, join_raft}
use raft_demo.Membership.Sample.{sample_cluster}
use raft_demo.Membership.Unique.{IsUnique, Joined, join_raft-Joined}
use raft_demo.Client.Commands.Unreachable.{handle_request-unreachable}
use raft_demo.Go.Strings.Laws.{trim_suffix-concat}
use raft_demo.Pb.{get, set, Command, Log}
use raft_demo.Base.Dict
use raft_demo.Client.Commands.Answered.{leader_of, value_after}
use raft_demo.Pb.Sample.{sample_codec}
use raft_demo.Client.Commands.{read_udp}
use raft_demo.Client.Commands.Replies.{seen, handle_request-read_udp}

abbrev client : Bytes
client = codes "10.0.0.7:5000"

host_test : host client ≡ codes "10.0.0.7"
unfolding host split
host_test = refl

abbrev leader : Raft
leader = record {
  is_leader = true;
  apply = λ msg. applied (response (respond (codes "15000") (codes "x-y")));
}

before_dash_test : before_dash (codes "x-y") ≡ codes "x"
unfolding before_dash
before_dash_test = refl

abbrev request : Request
request = record { command = codes "m" ++ newline ∷ []; ip = codes "10.0.0.7" }

abbrev follower : Raft
follower = record { is_leader = false; apply = leader.apply }

abbrev anywhere : Bytes → Bool
anywhere address = true

abbrev events : List Event
events =
    joins client
    ∷ incoming anywhere follower request
    ∷ timer
    ∷ incoming anywhere follower request
    ∷ []

-- The server is started over the throughput file of an earlier run, which had two lines.
abbrev earlier : File
earlier = record { content = line 9 ++ line 9; offset = 0 }

abbrev last : Server
last = record {
  clients = client ∷ [];
  req = 1;
  throughput = record { content = line 1 ++ line 9; offset = 2 };
  sent = [];
  errors = 0;
}

events_run : listen (new_server earlier) events ≡ some last
unfolding listen handle_request after_proposal send_udp propose join_client tick itoa digits
    overwrite write
events_run = refl

earlier_start : start_server (exists (line 9 ++ line 9)) ≡ some (new_server earlier)
unfolding start_server create_file
earlier_start = refl

counted-listen_example :
    (ns : List ℕ) × (last.throughput.content
      ≡ lines ns ++ drop (length (lines ns)) (line 9 ++ line 9))
    × (length ns ≡ ticks events)
    × ((sum ns + last.req) % 2 ^ 64 ≡ requests events % 2 ^ 64)
counted-listen_example =
    counted-listen (exists (line 9 ++ line 9)) (new_server earlier) last events earlier_start
      events_run

abbrev old : Node
old = record { id = codes "n1"; address = codes "a1" }

same_old : (x : Node) → In x (old ∷ []) → x ≡ old
same_old x (inl e) = e
same_old x (inr h) = absurd h

unique : IsUnique (old ∷ [])
unique = record {
  ids = λ x y hx hy e. cc (same_old x hx, same_old y hy);
  addresses = λ x y hx hy e. cc (same_old x hx, same_old y hy);
}

-- A node comes back with a new address.
join_raft-Joined_example :
    Joined sample_cluster
      (codes "n1")
      (codes "a3")
      (old ∷ [])
      (join_raft sample_cluster (old ∷ []) (codes "n1") (codes "a3") true).0
unfolding join_raft clear ◌==◌
join_raft-Joined_example =
    join_raft-Joined sample_cluster (codes "n1") (codes "a3") (old ∷ []) (old ∷ []) true refl unique
      refl

abbrev put_x : Command
put_x = record { id = 0; ip = []; op = set; key = codes "k"; value = codes "x" }

abbrev ask_x : Command
ask_x = record { id = 0; ip = []; op = get; key = codes "k"; value = [] }

abbrev replica : Store
replica = record { m = Dict.empty; logging = false; log_file = record { content = []; offset = 0 } }

abbrev committed : List Log
committed = record { index = 1; bytes = encode put_x } ∷ []

handle_request-read_udp_example :
    (r : Request) × (svr' : Server) × (datagram : Bytes) × (read client
        (encode (sent_command sample_codec ask_x (codes "15000")) ++ newline ∷ [])
      ≡ r ∷ [])
    × (handle_request anywhere
          (leader_of sample_codec (run sample_codec replica committed) 2)
          (new_server new_file)
          r
        ≡ some svr')
    × (svr'.sent ≡ (host client ++ (codes ":" ++ codes "15000"), datagram) ∷ [])
    × (read_udp datagram
        ≡ seen (before_dash (value_after sample_codec replica committed (codes "k"))))
handle_request-read_udp_example =
    handle_request-read_udp sample_codec replica committed 2 (new_server new_file) ask_x
      (codes "15000") client anywhere refl refl
      (record { not_empty = λ e. cc; one_line = omega arith }) (omega arith) refl

abbrev nowhere : Bytes → Bool
nowhere address = false

abbrev ask_far : Command
ask_far = record { id = 0; ip = codes "far"; op = get; key = codes "k"; value = [] }

handle_request-unreachable_example :
    handle_request nowhere
      (leader_of sample_codec replica 1)
      (new_server new_file)
      (record { ip = codes "10.0.0.7"; command = encode ask_far ++ newline ∷ [] })
    ≡ none
handle_request-unreachable_example =
    handle_request-unreachable sample_codec replica 1 (new_server new_file)
      (record { ip = codes "10.0.0.7"; command = encode ask_far ++ newline ∷ [] }) ask_far nowhere
      (rw (trim_suffix-concat (encode ask_far) newline, decode-encode ask_far)) refl
