-- ===== src/ChatRoom/Client.antt =====
-- chatRoom/client/chatClient.go: the client sends its lines to every replica, and prints what the
-- replicas broadcast, once.
pub mod Printed
pub mod Typed
pub mod Complete
pub mod Heard
use raft_demo.Base.{
  ℕ, ◌+◌, Bool, true, false, Option, none, some, List, [], ◌∷◌, ◌++◌, Bytes, length, ltb, eqb,
  if◌then◌else◌,
}
use raft_demo.ChatRoom.Queue.{MessageQueue, Ran, returned, panicked, blocked, push_pop}

abbrev pub print : Bytes → Ran (List Bytes) → Ran (List Bytes)
print v (returned mq out) = returned mq (v ∷ out)
print v panicked = panicked
print v blocked = blocked

-- Consume, over what the channel brings until it is closed: the messages that are printed
unfoldable pub consume_all : MessageQueue → List Bytes → Ran (List Bytes)
consume_all mq [] = returned mq []
consume_all mq (v ∷ vs) = elim (push_pop mq v) [
  | returned mq' popped ↦ elim popped.1 [
    | some _ ↦ consume_all mq' vs
    | none ↦ print v (consume_all mq' vs)
  ]
  | panicked ↦ panicked
  | blocked ↦ blocked
]
