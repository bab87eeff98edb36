-- ===== src/Membership.antt =====
-- JoinRaft of kvstore/store.go, and the handler of join requests. diskstorage/storage.go and
-- chatRoom/server/chatServer.go have the same code, up to the log lines.
mod Raft
pub mod Unique
pub mod Requests
pub mod Sample
pub use Raft.*
use raft_demo.Base.{
  Bool, true, false, Option, none, some, List, [], ◌∷◌, ◌&&◌, ◌||◌, ◌==◌, Bytes, dash, newline,
  if◌then◌else◌, get_or,
}
use raft_demo.Go.Strings.{split, trim_suffix}
use raft_demo.Go.Strconv.{parse_bool}
use raft_demo.Go.Bufio.{read_string}

module _ (c : Cluster) where
  open c use {State, configuration, remove_server, add_voter, add_nonvoter}

  -- How the loop over the configuration ends: with the node found, with an error, or at its end.
  pub data Cleared : Type 0 where
    already_member : State → Cleared
    not_removed : State → Cleared
    cleared : State → Cleared

  -- the loop of JoinRaft, over the servers of the configuration that was read at its start
  unfoldable pub clear : State → Bytes → Bytes → List Server → Cleared
  clear s id addr [] = cleared s
  clear s id addr (rep ∷ reps) = elim (rep.id == id || rep.address == addr) [
    | true ↦ elim (rep.address == addr && rep.id == id) [
      | true ↦ already_member s
      | false ↦
          let (s', removed) = remove_server s rep.id in
          elim removed [ true ↦ clear s' id addr reps | false ↦ not_removed s' ]
    ]
    | false ↦ clear s id addr reps
  ]

  abbrev pub add : State → Bytes → Bytes → Bool → State × Bool
  add s id addr voter = if voter then add_voter s id addr else add_nonvoter s id addr

  abbrev pub settle : Cleared → Bytes → Bytes → Bool → State × Bool
  settle (already_member s) id addr voter = (s, true)
  settle (not_removed s) id addr voter = (s, false)
  settle (cleared s) id addr voter = add s id addr voter

  -- JoinRaft; the second part says that there was no error
  unfoldable pub join_raft : State → Bytes → Bytes → Bool → State × Bool
  join_raft s id addr voter = elim (configuration s) [
    | none ↦ (s, false)
    | some servers ↦ settle (clear s id addr servers) id addr voter
  ]

  abbrev pub or_fatal : State × Bool → Option State
  or_fatal (s, joined) = if joined then some s else none

  -- One round of ListenRaftJoins for what a connection sends; `none` is a call of log.Fatalf.
  unfoldable pub handle_join : State → Bytes → Option State
  handle_join s stream = elim (split (read_string stream) dash) [
    | id ∷ addr ∷ flag ∷ _ ↦
        let voter = get_or (parse_bool (trim_suffix flag (newline ∷ []))) false in
        or_fatal (join_raft s id addr voter)
    | _ ↦ none
  ]
