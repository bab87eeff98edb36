-- ===== src/ChatRoom/Queue.antt =====
-- chatRoom/client/messageQueue.go: a queue that ignores repeated entries.
pub mod Steps
pub mod Faults
use raft_demo.Base.{
  ℕ, ◌+◌, Bool, true, false, not, ◌||◌, Option, none, some, List, [], ◌∷◌, ◌++◌, Bytes, length,
  replicate, ◌==◌, ltb, leb, if◌then◌else◌,
}

-- MessageQueue, with the state of its mutex; sizes are not negative
pub record MessageQueue : Type 0 where
  pub size : ℕ
  pub entries : List Bytes
  pub sync : Bool
  pub locked : Bool

pub data Error : Type 0 where
  full duplicate : Error

-- A call returns, panics at an index out of range, or waits for a mutex that it holds itself.
pub data Ran {ℓ} (A : Type ℓ) : Type ℓ where
  returned : MessageQueue → A → Ran A
  panicked : Ran A
  blocked : Ran A

-- NewMQ
unfoldable pub new_mq : ℕ → Bool → MessageQueue
new_mq size synchronized = record {
  size = size;
  entries = replicate size [];
  sync = synchronized;
  locked = false;
}

-- the Lock at the start of a method
abbrev pub acquire : MessageQueue → Option MessageQueue
acquire mq =
    if mq.sync then (if mq.locked then none else some (record mq { locked = true })) else some mq

-- the deferred Unlock
abbrev pub release : MessageQueue → MessageQueue
release mq = if mq.sync then record mq { locked = false } else mq

-- contains
unfoldable pub contains : List Bytes → Bytes → Bool
contains [] s = false
contains (v ∷ vs) s = v == s || contains vs s

-- len(mq.Data) >= mq.Size-1
abbrev pub is_full : MessageQueue → Bool
is_full mq = leb mq.size (length mq.entries + 1)

abbrev pub append : MessageQueue → Bytes → MessageQueue
append mq s = record mq { entries = mq.entries ++ s ∷ [] }

-- Add; `none` is a nil error
unfoldable pub add : MessageQueue → Bytes → Ran (Option Error)
add mq s = elim (acquire mq) [
  | none ↦ blocked
  | some mq' ↦
      if is_full mq'
      then returned (release mq') (some full)
      else if not (contains mq'.entries s)
      then returned (release (append mq' s)) none
      else returned (release mq') (some duplicate)
]

abbrev pub take_first : MessageQueue → List Bytes → Ran Bytes
take_first mq [] = panicked
take_first mq (first ∷ rest) = returned (release (record mq { entries = rest })) first

-- Consume
unfoldable pub consume : MessageQueue → Ran Bytes
consume mq = elim (acquire mq) [ none ↦ blocked | some mq' ↦ take_first mq' mq'.entries ]

-- the end of PushPop, for what the call of Consume came to
abbrev pub push : Ran Bytes → Bytes → Ran (Bytes × Option Error)
push (returned mq aux) s = returned (release (append mq s)) (aux, none)
push panicked s = panicked
push blocked s = blocked

-- PushPop
unfoldable pub push_pop : MessageQueue → Bytes → Ran (Bytes × Option Error)
push_pop mq s = elim (acquire mq) [
  | none ↦ blocked
  | some mq' ↦
      if not (contains mq'.entries s)
      then push (if is_full mq' then consume mq' else returned mq' []) s
      else returned (release mq') ([], some duplicate)
]
