-- ===== src/Kvstore/Transfer/Whole.antt =====
-- The whole way: a replica runs and logs, recovery/ asks for its state and installs it.
use raft_demo.Base.{
  ℕ, ◌≡◌, ap, ◌∙◌, true, none, some, List, [], Bytes, length, All, if◌then◌else◌, arith, get_or,
}
use raft_demo.Base.Dict
use raft_demo.Pb.{Log, Codec}
use raft_demo.Recovery.State.{MockState, installed, install_received_state, new_mock_state}
use raft_demo.Recovery.State.Install.{or_else}
use raft_demo.Recovery.Requester.{
  state_request, ask_for_state_transfer, start_state_installation, recover,
}
use raft_demo.Recovery.Requester.Lines.{IsAddress, read_string-state_request, split-state_request}
use raft_demo.Kvstore.Fsm.{Store, run}
use raft_demo.Kvstore.Fsm.Logged.{IsAppending, logged, logging-run}
use raft_demo.Kvstore.Files.{read_all}
use raft_demo.Kvstore.Recovery.{IsLoggable, recovery}
use raft_demo.Kvstore.Transfer.{unsafe_state_recover, transfer_state}

-- Whatever index a request names, whose address has no dash and no newline, a replica that keeps a
-- log answers it with the whole log, and any other replica ends.
pub transfer_state-state_request :
    (s : Store) (local_addr : Bytes) (index : ℕ)
    → IsAddress local_addr
    → transfer_state s (state_request local_addr index)
      ≡ (if s.logging then some s.log_file.content else none)
unfolding transfer_state unsafe_state_recover read_all
transfer_state-state_request s local_addr index a = rw (
  transfer_state,
  read_string-state_request local_addr a index,
  split-state_request local_addr a index,
)

-- what a requester reads from the connection to a replica
abbrev pub answer_of : Store → Bytes → Bytes
answer_of s stream = get_or (transfer_state s stream) []

pub answer_of-state_request :
    (s : Store) (local_addr : Bytes)
    → IsAddress local_addr
    → s.logging ≡ true
    → answer_of s (state_request local_addr 0) ≡ s.log_file.content
answer_of-state_request s local_addr address logs =
    ground (arith, transfer_state-state_request s local_addr 0 address)

-- Take a replica that logs to a new file, and committed entries with indices from 1 on (of 64 bits)
-- whose commands are shorter than 2 GiB. Then the recovery program, which asks this replica for its
-- state from an address with no dash and no newline, installs as many commands as the replica has
-- logged, and the installed state, laid over the map that the replica began with, has for every key
-- the value of the replica's map.
pub recover-run :
    (pb : Codec) (f : Store) (ls : List Log) (local_addr : Bytes)
    → IsAppending pb f
    → f.log_file.content ≡ []
    → All (IsLoggable pb) ls
    → IsAddress local_addr
    → (r : MockState) × (recover pb (answer_of (run pb f ls)) local_addr
        ≡ installed (length (logged pb ls)) r)
      × ((k : Bytes) → Dict.get (run pb f ls).m k ≡ or_else (Dict.get r.state k) (Dict.get f.m k))
unfolding recover start_state_installation ask_for_state_transfer
recover-run pb f ls local_addr a fresh h address =
    let (r, e, same) = recovery pb f ls a fresh h in
    (
      r,
      ap (install_received_state pb new_mock_state) (
            answer_of-state_request (run pb f ls) local_addr address
              (logging-run pb f ls ∙ a.is_logging))
          ∙ e,
      same,
    )
