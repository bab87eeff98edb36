-- ===== src/Logger/Transfer.antt =====
-- logger/logger.go: the transfer of the log to a node that asks for the state.
pub mod Same
use raft_demo.Base.{ℕ, Option, none, some, [], ◌∷◌, Bytes, dash, newline}
use raft_demo.Go.Strings.{split, trim_suffix}
use raft_demo.Go.Bufio.{read_string}
use raft_demo.Go.Files.{File}
use raft_demo.Kvstore.Transfer.{requested_log_index, reopen}
use raft_demo.Logger.Fsm.{Logger}

-- readAll
unfoldable pub read_all : File → Bytes
read_all f = raft_demo.Kvstore.Files.read_all f

-- UnsafeStateRecover: what is written to the pipe
unfoldable pub unsafe_state_recover : Logger → ℕ → Bytes
unsafe_state_recover lgr log_index = read_all (reopen lgr.log_file)

-- One round of ListenStateTransfer for what a connection sends; `none` is a call of log.Fatalf.
unfoldable pub transfer_state : Logger → Bytes → Option Bytes
transfer_state lgr stream = elim (split (read_string stream) dash) [
  | _ ∷ index ∷ [] ↦
      some (unsafe_state_recover lgr (requested_log_index (trim_suffix index (newline ∷ []))))
  | _ ↦ none
]
