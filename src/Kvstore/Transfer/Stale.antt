-- ===== src/Kvstore/Transfer/Stale.antt =====
-- What recovery/ installs from a replica that was started again over the log of an earlier run.
use raft_demo.Base.{
  ℕ, ◌+◌, ◌≡◌, ap, sym, ◌∙◌, true, some, List, ◌++◌, Bytes, length, length-append, drop,
  drop-length-append, All, All-append,
}
use raft_demo.Base.Dict
use raft_demo.Pb.{Command, Log, Codec}
use raft_demo.Frames.{frames, frames-append, IsFrameable}
use raft_demo.Recovery.State.{
  MockState, installed, install_commands, install_received_state, new_mock_state,
}
use raft_demo.Recovery.State.Install.{or_else}
use raft_demo.Recovery.Requester.{ask_for_state_transfer, start_state_installation, recover}
use raft_demo.Recovery.Requester.Lines.{IsAddress}
use raft_demo.Kvstore.Files.{exists, create_file}
use raft_demo.Kvstore.Fsm.{Store, run}
use raft_demo.Kvstore.Fsm.Logged.{logged, logging-run}
use raft_demo.Kvstore.Fsm.Replies.{last_set, last_set-append, install_commands-last_set}
use raft_demo.Kvstore.Fsm.Reopened.{content-run-create_file}
use raft_demo.Kvstore.Recovery.{IsLoggable, logged-IsFrameable, install-frames}
use raft_demo.Kvstore.Transfer.Whole.{answer_of, answer_of-state_request}

-- what is left of old frames behind new ones that cover the first of them
drop-frames :
    (pb : Codec) (front back : List Command) (n : ℕ)
    → n ≡ length (frames pb front)
    → drop n (frames pb (front ++ back)) ≡ frames pb back
drop-frames pb front back n e =
    rw (e, frames-append pb front back) (drop-length-append (frames pb front) (frames pb back))

-- Take a replica that is started again over the log of some commands, and the frames of what it has
-- logged since are as long as those of the first of these. Then the recovery program, which asks it
-- for its state, installs the new commands and behind them the rest of the old ones: a key that these
-- set has its old value in the installed state, whatever the new commands have made of it.
pub recover-create_file :
    (pb : Codec) (f : Store) (ls : List Log) (front back : List Command) (local_addr : Bytes)
    → f.logging ≡ true
    → create_file (exists (frames pb (front ++ back))) ≡ some f.log_file
    → All (IsLoggable pb) ls
    → All (IsFrameable pb) back
    → length (frames pb (logged pb ls)) ≡ length (frames pb front)
    → IsAddress local_addr
    → (r : MockState) × (recover pb (answer_of (run pb f ls)) local_addr
        ≡ installed (length (logged pb ls) + length back) r)
      × ((k : Bytes) → Dict.get r.state k ≡ or_else (last_set k back) (last_set k (logged pb ls)))
unfolding recover start_state_installation ask_for_state_transfer
recover-create_file pb f ls front back local_addr logs opened loggable framed covers address =
    let cs = logged pb ls in
    let content : (run pb f ls).log_file.content ≡ frames pb (cs ++ back) =
      content-run-create_file pb (frames pb (front ++ back)) f ls logs opened
      ∙ ap (λ l. frames pb cs ++ l) (drop-frames pb front back (length (frames pb cs)) covers)
      ∙ sym (frames-append pb cs back) in
    (
      record { state = install_commands Dict.empty (cs ++ back) },
      ap (install_received_state pb new_mock_state) (
            answer_of-state_request (run pb f ls) local_addr address (logging-run pb f ls ∙ logs)
            ∙ content)
          ∙ install-frames pb (cs ++ back) new_mock_state
              (All-append (IsFrameable pb) cs back (logged-IsFrameable pb ls loggable) framed)
          ∙ ap (λ n. installed n (record { state = install_commands Dict.empty (cs ++ back) }))
              (length-append cs back),
      λ k. install_commands-last_set k (cs ++ back) ∙ last_set-append k cs back,
    )
