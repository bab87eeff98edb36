-- ===== src/Recovery/Requester.antt =====
-- recovery/requester.go: the request for the state, and what is done with the answer.
pub mod Lines
use raft_demo.Base.{ℕ, Bool, List, [], ◌∷◌, ◌++◌, Bytes, dash, newline}
use raft_demo.Go.Strconv.{itoa}
use raft_demo.Pb.{Codec}
use raft_demo.Recovery.State.{
  MockState, Installed, installed, crashed, stuck, new_mock_state, install_received_state,
}

-- the message of sendStateRequest, from a connection with this local address
unfoldable pub state_request : Bytes → ℕ → Bytes
state_request local_addr index = local_addr ++ (dash ∷ (itoa index ++ newline ∷ []))

-- AskForStateTransfer(index), where a replica answers a request with a state
unfoldable pub ask_for_state_transfer : (Bytes → Bytes) → Bytes → ℕ → Bytes
ask_for_state_transfer answer local_addr first_index = answer (state_request local_addr first_index)

-- StartStateInstallation
unfoldable pub start_state_installation : Codec → MockState → Bytes → Installed
start_state_installation pb replica received_state =
    install_received_state pb replica received_state

-- main: the state from index 0 on, installed in a new MockState
unfoldable pub recover : Codec → (Bytes → Bytes) → Bytes → Installed
recover pb answer local_addr =
    start_state_installation pb new_mock_state (ask_for_state_transfer answer local_addr 0)
