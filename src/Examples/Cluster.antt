-- ===== src/Examples/Cluster.antt =====
-- A cluster of replicas with one committed SET, which replicas 0 and 1 were handed.
use raft_demo.Base.{
  drop, true, update, ℕ, ◌≤◌, ◌≡◌, refl, [], ◌∷◌, ◌++◌, Bytes, codes, take, get_or, arith,
}
use raft_demo.Base.Dict
use raft_demo.Pb.{Log}
use raft_demo.Pb.Sample.{sample_codec}
use raft_demo.Kvstore.Fsm.{Store, response, respond, apply, dispatch}
use raft_demo.Kvstore.Fsm.Logged.{logged}
use raft_demo.Kvstore.Fsm.Replies.{last_set}
use raft_demo.Kvstore.Transfer.Whole.{answer_of}
use raft_demo.Recovery.State.{MockState, installed}
use raft_demo.Recovery.State.Install.{or_else}
use raft_demo.Recovery.Requester.{recover}
use raft_demo.Logger.Fsm.{Logger}
use raft_demo.Replication.{System, hand, note, Reach, here, next, commits, applies, records, init}
use raft_demo.Replication.Agreement.{Reach-behind, apply-Reach, recover-Reach}
use raft_demo.Replication.Logs.{content-Reach}
use raft_demo.Examples.Logs.{
  start, recorder, entry, put_a, put_again, ask_a, entry-IsLoggable, fresh, requester,
  requester-IsAddress,
}

abbrev stores : ℕ → Store
stores i = start

abbrev loggers : ℕ → Logger
loggers i = recorder

abbrev first : Log
first = entry 1 put_a

abbrev begun : System
begun = init stores loggers

abbrev one : System
one = record begun { committed = first ∷ [] }

abbrev two : System
two = record one { replica = update one.replica 0 (hand sample_codec (one.replica 0) first) }

abbrev three : System
three = record two { replica = update two.replica 1 (hand sample_codec (two.replica 1) first) }

abbrev four : System
four = record three {
  recorder = update three.recorder 0 (note sample_codec (three.recorder 0) first);
}

reached : Reach sample_codec begun four
reached =
    next
      (next
        (next
          (next here (
            commits first
              (entry-IsLoggable 1 put_a (λ e. omega arith) (omega arith) (omega arith))))
          (applies 0 first refl refl))
        (applies 1 first refl refl))
      (records 0 first refl)

same_count : (four.replica 0).handed ≡ (four.replica 1).handed
unfolding hand
same_count = refl

-- Behind the first entry, replica 1 is handed a second one that replica 0 has not seen.
abbrev second : Log
second = entry 2 put_again

abbrev five : System
five = record four { committed = first ∷ second ∷ [] }

abbrev six : System
six = record five { replica = update five.replica 1 (hand sample_codec (five.replica 1) second) }

later : Reach sample_codec begun six
unfolding hand apply dispatch
later =
    next
      (next reached (
        commits second
          (entry-IsLoggable 2 put_again (λ e. omega arith) (omega arith) (omega arith))))
      (applies 1 second refl refl)

still_runs : (six.replica 0).running ≡ true
unfolding hand apply dispatch
still_runs = refl

one_behind : (six.replica 0).handed ≤ (six.replica 1).handed
unfolding hand
one_behind = omega arith

Reach-behind_example :
    Dict.get (six.replica 1).store.m (codes "a")
    ≡ or_else
        (last_set (codes "a") (
          logged sample_codec
            (drop (six.replica 0).handed (take (six.replica 1).handed six.committed))))
        (Dict.get (six.replica 0).store.m (codes "a"))
Reach-behind_example =
    Reach-behind sample_codec stores loggers six later 0 1 (codes "a") refl still_runs one_behind

apply-Reach_example :
    (apply sample_codec (four.replica 0).store (entry 2 ask_a)).1
    ≡ response (
        respond (codes "15000") (
          get_or
            (or_else
              (last_set
                (codes "a")
                (logged sample_codec (take (four.replica 0).handed four.committed)))
              (Dict.get (stores 0).m (codes "a")))
            []))
apply-Reach_example =
    apply-Reach sample_codec stores loggers four reached 0 (entry 2 ask_a) ask_a refl refl

recover-Reach_example :
    (n : ℕ) × (r : MockState) × (recover sample_codec (answer_of (four.replica 0).store) requester
      ≡ installed n r)
    × ((k : Bytes)
        → Dict.get (four.replica 1).store.m k
          ≡ or_else (Dict.get r.state k) (Dict.get (stores 1).m k))
recover-Reach_example =
    recover-Reach sample_codec stores loggers four reached 0 1 requester fresh refl refl same_count
      requester-IsAddress

below : (four.replica 2).handed ≤ (four.replica 0).handed
unfolding hand
below = omega arith

content-Reach_example :
    (rest : Bytes) × ((four.replica 0).store.log_file.content
      ≡ (four.replica 2).store.log_file.content ++ rest)
content-Reach_example =
    content-Reach sample_codec stores loggers four 2 0 reached fresh fresh refl below
