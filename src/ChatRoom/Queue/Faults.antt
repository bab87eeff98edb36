-- ===== src/ChatRoom/Queue/Faults.antt =====
-- Add and PushPop of chatRoom/client/messageQueue.go, on a new and on a synchronised queue.
use raft_demo.Base.{
  ℕ, ◌+◌, ◌≤◌, ◌≡◌, ◌↔◌, Bool, true, false, some, [], Bytes, length, length-replicate, arith,
}
use raft_demo.ChatRoom.Queue.{
  MessageQueue, full, returned, blocked, new_mq, contains, add, consume, push_pop,
}

-- A new queue, whatever its size, is full from the start: Add returns the error of a full queue for
-- every message, and leaves the queue as it was.
pub add-new_mq :
    (size : ℕ) (synchronized : Bool) (s : Bytes)
    → add (new_mq size synchronized) s ≡ returned (new_mq size synchronized) (some full)
unfolding add new_mq
add-new_mq size synchronized s = ground (arith, length-replicate {A = Bytes} size [])

-- Of a synchronised queue whose mutex is free, a call of PushPop blocks for ever exactly if the
-- queue is full and the message is not in it: then the method holds the mutex that Consume asks
-- for.
pub push_pop-blocked :
    (mq : MessageQueue) (s : Bytes)
    → mq.sync ≡ true
    → mq.locked ≡ false
    → (push_pop mq s ≡ blocked)
      ↔ ((mq.size ≤ length mq.entries + 1) × (contains mq.entries s ≡ false))
unfolding push_pop consume
push_pop-blocked mq s y free = ((λ e. ground (arith, e)), (λ h. ground (arith, h)))
