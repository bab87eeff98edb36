-- ===== src/Examples/Logs.antt =====
-- The command logs of kvstore/ and logger/, and their recovery.
use raft_demo.Base.{
  drop, take, ℕ, ◌+◌, ◌^◌, ◌<◌, ◌≡◌, ◌≢◌, refl, sym, subst, true, some, List, [], ◌∷◌, ◌++◌, Bytes,
  codes, length, arith, All, ◌∙◌, ◌==◌,
}
use raft_demo.Base.Dict
use raft_demo.Go.Files.{File}
use raft_demo.Pb.{Operation, get, set, delete, Command, Log}
use raft_demo.Pb.Sample.{sample_codec, encode, decode-encode}
use raft_demo.Frames.{frame, frames, IsFrameable}
use raft_demo.Go.Binary.{put_int32}
use raft_demo.Recovery.State.Cut.{cut_commands, install-frames_cut}
use raft_demo.Recovery.State.{
  MockState, installed, stuck, new_mock_state, install_commands, install_received_state,
}
use raft_demo.Recovery.State.Loop.{install-ne-stuck}
use raft_demo.Recovery.State.Install.{or_else}
use raft_demo.Kvstore.Fsm.{Store, run}
use raft_demo.Kvstore.Fsm.Logged.{IsAppending, logged}
use raft_demo.Kvstore.Fsm.Stopped.{run-delete}
use raft_demo.Kvstore.Fsm.Replies.{last_set}
use raft_demo.Kvstore.Files.{exists, create_file}
use raft_demo.Kvstore.Transfer.Stale.{recover-create_file}
use raft_demo.Kvstore.Recovery.{IsLoggable}
use raft_demo.Kvstore.Transfer.Whole.{answer_of, recover-run}
use raft_demo.Recovery.Requester.{recover}
use raft_demo.Recovery.Requester.Lines.{IsAddress}
use raft_demo.Logger.Fsm
use raft_demo.Logger.Fsm.{Logger}
use raft_demo.Logger.Fsm.Copies.{IsKnown, readable, content-run-run}

abbrev pub no_file : File
no_file = record { content = []; offset = 0 }

abbrev pub start : Store
start = record { m = Dict.empty; logging = true; log_file = no_file }

abbrev pub recorder : Logger
recorder = record { log_file = no_file; req = 0 }

abbrev pub command : Operation → Bytes → Bytes → Command
command op key value = record { id = 0; ip = codes "15000"; op = op; key = key; value = value }

abbrev pub entry : ℕ → Command → Log
entry index c = record { index = index; bytes = encode c }

abbrev pub put_a : Command
put_a = command set (codes "a") (codes "1")

abbrev pub put_again : Command
put_again = command set (codes "a") (codes "2")

abbrev pub ask_a : Command
ask_a = command get (codes "a") []

abbrev entries : List Log
entries = entry 1 put_a ∷ record { index = 2; bytes = [] } ∷ entry 3 ask_a ∷ []

encode_short :
    (c : Command) (n : ℕ)
    → length (encode c) < 2 ^ 31
    → (d : Command) → sample_codec.unmarshal (encode c) ≡ some d
    → length (sample_codec.marshal (record d { id = n })).0 < 2 ^ 31
encode_short c n h d e =
    let same : c ≡ d = cc (sym (decode-encode c) ∙ e) in
    subst (λ (x : Command). length (encode (record x { id = n })) < 2 ^ 31) same h

pub entry-IsLoggable :
    (n : ℕ) (c : Command)
    → n ≢ 0
    → n < 2 ^ 64
    → length (encode c) < 2 ^ 31
    → IsLoggable sample_codec (entry n c)
entry-IsLoggable n c p l h = record { indexed = p; fits = l; short = encode_short c n h }

empty-IsLoggable : IsLoggable sample_codec (record { index = 2; bytes = [] })
empty-IsLoggable = record { indexed = λ e. omega arith; fits = omega arith; short = λ c e. cc }

pub fresh : IsAppending sample_codec start
fresh = record { is_logging = refl; at_end = refl }

loggable : All (IsLoggable sample_codec) entries
loggable = (
  entry-IsLoggable 1 put_a (λ e. omega arith) (omega arith) (omega arith),
  (empty-IsLoggable, (entry-IsLoggable 3 ask_a (λ e. omega arith) (omega arith) (omega arith), tt)),
)

two_logged : length (logged sample_codec entries) ≡ 2
unfolding logged
two_logged = refl

last_of_a : last_set (codes "a") (logged sample_codec entries) ≡ some (codes "1")
unfolding logged last_set ◌==◌
last_of_a = refl

readable-IsKnown : All (IsKnown) (readable sample_codec entries)
unfolding readable
readable-IsKnown = (tt, (tt, tt))

content-run-run_example :
    (Fsm.run sample_codec recorder entries).log_file.content
    ≡ (run sample_codec start entries).log_file.content
content-run-run_example =
    content-run-run sample_codec recorder start entries refl (omega arith) fresh refl
      readable-IsKnown

install-ne-stuck_example : install_received_state sample_codec new_mock_state (5 ∷ []) ≢ stuck
install-ne-stuck_example = install-ne-stuck sample_codec new_mock_state (5 ∷ [])

abbrev pub requester : Bytes
requester = codes "10.0.0.9:40000"

pub requester-IsAddress : IsAddress requester
requester-IsAddress = record { no_dash = omega arith; one_line = omega arith }

recover-run_example :
    (r : MockState) × (recover sample_codec (answer_of (run sample_codec start entries)) requester
      ≡ installed (length (logged sample_codec entries)) r)
    × ((k : Bytes)
        → Dict.get (run sample_codec start entries).m k
          ≡ or_else (Dict.get r.state k) (Dict.get start.m k))
recover-run_example =
    recover-run sample_codec start entries requester fresh refl loggable requester-IsAddress

-- an earlier run has stored 1 and then 0
abbrev old_front : List Command
old_front = record put_a { id = 7 } ∷ []

abbrev old_back : List Command
old_back = record (command set (codes "a") (codes "0")) { id = 8 } ∷ []

abbrev reopened : Store
reopened = record {
  m = Dict.empty;
  logging = true;
  log_file = record { content = frames sample_codec (old_front ++ old_back); offset = 0 };
}

create_file_test :
    create_file (exists (frames sample_codec (old_front ++ old_back))) ≡ some reopened.log_file
unfolding create_file
create_file_test = refl

as_long :
    length (frames sample_codec (logged sample_codec (entry 1 put_a ∷ [])))
    ≡ length (frames sample_codec old_front)
unfolding frames logged put_int32
as_long = refl

recover-create_file_example :
    (r : MockState) × (recover sample_codec
        (answer_of (run sample_codec reopened (entry 1 put_a ∷ [])))
        requester
      ≡ installed (length (logged sample_codec (entry 1 put_a ∷ [])) + length old_back) r)
    × ((k : Bytes)
        → Dict.get r.state k
          ≡ or_else (last_set k old_back) (last_set k (logged sample_codec (entry 1 put_a ∷ []))))
recover-create_file_example =
    recover-create_file sample_codec reopened (entry 1 put_a ∷ []) old_front old_back requester refl
      create_file_test
      (entry-IsLoggable 1 put_a (λ e. ground (arith, e)) (omega arith) (omega arith), tt)
      (record { marshalled = refl; not_empty = omega arith; short = omega arith }, tt) as_long
      requester-IsAddress

abbrev remove_a : Command
remove_a = command delete (codes "a") []

run-delete_example :
    (run sample_codec start (entries ++ entry 4 remove_a ∷ entry 5 ask_a ∷ [])
      ≡ run sample_codec start (entries ++ entry 4 remove_a ∷ []))
    × ((run sample_codec start (entries ++ entry 4 remove_a ∷ entry 5 ask_a ∷ [])).m
        ≡ (run sample_codec start entries).m)
run-delete_example =
    run-delete sample_codec start entries (entry 5 ask_a ∷ []) (entry 4 remove_a) remove_a refl refl

put_a-IsFrameable : IsFrameable sample_codec put_a
put_a-IsFrameable = record { marshalled = refl; not_empty = omega arith; short = omega arith }

cut_split :
    frame sample_codec put_a
    ≡ take 6 (frame sample_codec put_a) ++ drop 6 (frame sample_codec put_a)
unfolding put_int32
cut_split = refl

cut_left : drop 6 (frame sample_codec put_a) ≢ []
unfolding put_int32
cut_left e = cc

-- A log that ends with two bytes of a command.
install-frames_cut_example :
    install_received_state sample_codec new_mock_state
      (frames sample_codec (put_a ∷ []) ++ take 6 (frame sample_codec put_a))
    ≡ installed
        (length (put_a ∷ cut_commands sample_codec put_a (take 6 (frame sample_codec put_a))))
        (record {
          state =
              install_commands new_mock_state.state
                (put_a ∷ cut_commands sample_codec put_a (take 6 (frame sample_codec put_a)));
        })
install-frames_cut_example =
    install-frames_cut sample_codec new_mock_state (put_a ∷ []) put_a
      (take 6 (frame sample_codec put_a)) (drop 6 (frame sample_codec put_a))
      (put_a-IsFrameable, tt) put_a-IsFrameable cut_split cut_left
