-- ===== src/Kvstore/Store.antt =====
-- kvstore/store.go: the proposals of a replica and its membership in the cluster.
pub mod Proposals
use raft_demo.Base.{
  ℕ, Bool, true, false, Option, none, some, List, [], ◌∷◌, Bytes, codes, dash, newline, get_elem?,
  not, if◌then◌else◌,
}
use raft_demo.Go.Strings.{split, join}
use raft_demo.Kvstore.Fsm.{Outcome, response, failure, panicked}

-- What raft.Apply ends with: an error, or what the state machine returned for the entry.
pub data Committed : Type 0 where
  refused : Committed
  applied : Outcome → Committed

-- The calls of *raft.Raft that Propose makes.
pub record Raft : Type 0 where
  pub is_leader : Bool
  pub apply : Bytes → Committed

-- What Propose does: nothing on a follower; an error; a datagram; or a panic at a missing part.
pub data Proposed : Type 0 where
  ignored : Proposed
  failed : Proposed
  unrecognized : Proposed
  replied : (address message : Bytes) → Proposed
  crashed : Proposed

-- the datagram that is sent for the parts of a response
unfoldable pub reply_to : Bytes → Option Bytes → Option Bytes → Proposed
reply_to client_ip (some port) (some reply) =
    replied (join (client_ip ∷ codes ":" ∷ port ∷ []) [])
      (join (codes "OK: " ∷ reply ∷ (newline ∷ []) ∷ []) [])
reply_to client_ip _ _ = crashed

unfoldable pub answer : Bytes → Committed → Proposed
answer client_ip refused = failed
answer client_ip (applied (response text)) =
    let parts = split text dash in reply_to client_ip (get_elem? parts 0) (get_elem? parts 1)
answer client_ip (applied failure) = unrecognized
answer client_ip (applied panicked) = crashed

-- Propose
unfoldable pub propose : Raft → Bytes → Bytes → Proposed
propose raft msg client_ip =
    if not raft.is_leader then ignored else answer client_ip (raft.apply msg)
