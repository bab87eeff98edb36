-- ===== src/ChatRoom/Queue/Steps.antt =====
-- PushPop without synchronisation, on a queue that is full and not empty.
use raft_demo.Base.{
  ◌+◌, ◌≤◌, ◌≡◌, ◌≢◌, true, false, none, some, List, [], ◌∷◌, ◌++◌, Bytes, length, arith, All,
  eq_iff,
}
use raft_demo.ChatRoom.Queue.{MessageQueue, duplicate, returned, contains, push_pop, consume}

module _ (mq : MessageQueue) (first : Bytes) (rest : List Bytes) (v : Bytes)
    (plain : mq.sync ≡ false) (holds : mq.entries ≡ first ∷ rest)
    (full : mq.size ≤ length mq.entries + 1) where
  pub push_pop-old : contains mq.entries v ≡ true → push_pop mq v ≡ returned mq ([], some duplicate)
  unfolding push_pop
  push_pop-old e = ground arith

  pub push_pop-new :
      contains mq.entries v ≡ false
      → push_pop mq v ≡ returned (record mq { entries = rest ++ v ∷ [] }) (first, none)
  unfolding push_pop consume
  push_pop-new e = ground arith

-- A text that the queue does not contain differs from its entries.
pub contains-All : (vs : List Bytes) (s : Bytes) → contains vs s ≡ false → All (λ v. v ≢ s) vs
unfolding contains
contains-All [] s e = tt
contains-All (v ∷ vs) s e = ((λ p. ground (arith, eq_iff v s, p)), contains-All vs s (ground arith))
