-- ===== src/Logger/Transfer/Same.antt =====
-- State requests to a logger process (logger/logger.go) and to a replica (kvstore/store.go).
use raft_demo.Base.{◌≡◌, true, List, Bytes, arith, ◌^◌, ◌<◌, All, ◌∙◌}
use raft_demo.Pb.{Log, Codec}
use raft_demo.Logger.Fsm
use raft_demo.Logger.Fsm.{Logger}
use raft_demo.Logger.Fsm.Copies.{AtEnd, IsKnown, readable, content-run-run}
use raft_demo.Kvstore.Files
use raft_demo.Kvstore.Fsm.{Store, run}
use raft_demo.Kvstore.Fsm.Logged.{IsAppending, logging-run}
use raft_demo.Kvstore.Transfer
use raft_demo.Logger.Transfer.{read_all, unsafe_state_recover, transfer_state}

same_answer :
    (lgr : Logger) (s : Store) (stream : Bytes)
    → lgr.log_file.content ≡ s.log_file.content
    → s.logging ≡ true
    → transfer_state lgr stream ≡ Transfer.transfer_state s stream
unfolding transfer_state unsafe_state_recover Transfer.transfer_state Transfer.unsafe_state_recover
    read_all Files.read_all
same_answer lgr s stream same logs = ground (arith, same, logs)

-- Take a logger and a logging replica whose log files have the same bytes and whose descriptors
-- stand at their ends; the logger's counter is below 2^64. After the same entries, whose commands
-- are all SET or GET, they answer every state request, also a malformed one, in the same way.
pub transfer_state-run :
    (pb : Codec) (lgr : Logger) (s : Store) (ls : List Log) (stream : Bytes)
    → AtEnd lgr
    → lgr.req < 2 ^ 64
    → IsAppending pb s
    → lgr.log_file.content ≡ s.log_file.content
    → All IsKnown (readable pb ls)
    → transfer_state (Fsm.run pb lgr ls) stream ≡ Transfer.transfer_state (run pb s ls) stream
transfer_state-run pb lgr s ls stream a r b same known =
    same_answer (Fsm.run pb lgr ls) (run pb s ls) stream
      (content-run-run pb lgr s ls a r b same known) (logging-run pb s ls ∙ b.is_logging)
