-- ===== src/ChatRoom/Client/Printed.antt =====
-- What Consume of chatRoom/client/chatClient.go prints, and what the queue holds then.
use raft_demo.Base.{
  ℕ, ◌+◌, ◌≤◌, ◌≡◌, ◌≢◌, refl, sym, Bool, false, List, [], ◌∷◌, ◌++◌, append_assoc, append-nil,
  Bytes, length, length-append, drop, arith, All, subst, Bool-cases, inl, inr, if◌then◌else◌,
}
use raft_demo.ChatRoom.Queue.{MessageQueue, returned, contains}
use raft_demo.ChatRoom.Queue.Steps.{push_pop-old, push_pop-new, contains-All}
use raft_demo.ChatRoom.Client.{consume_all}

-- what is let through by a window of the last messages
unfoldable pub fresh : List Bytes → List Bytes → List Bytes
fresh window [] = []
fresh window (v ∷ vs) =
    let old = fresh window vs in
    let new = v ∷ fresh (drop 1 window ++ v ∷ []) vs in if contains window v then old else new

-- No message equals one of those in the window in front of it.
abbrev pub Spaced : List Bytes → List Bytes → Type 0
Spaced window [] = Unit
Spaced window (v ∷ vs) = All (λ u. u ≢ v) window × Spaced (drop 1 window ++ v ∷ []) vs

pub fresh-Spaced : (window vs : List Bytes) → Spaced window (fresh window vs)
unfolding fresh
fresh-Spaced window [] = tt
fresh-Spaced window (v ∷ vs) = elim (Bool-cases (contains window v)) [
  | inl old ↦ rw old (fresh-Spaced window vs)
  | inr new ↦ rw new (contains-All window v new, fresh-Spaced (drop 1 window ++ v ∷ []) vs)
]

-- the queue after messages were printed
abbrev pub slid : MessageQueue → List Bytes → MessageQueue
slid mq out = record mq { entries = drop (length out) (mq.entries ++ out) }

module _ (size : ℕ) (locked : Bool) where
  queue : List Bytes → MessageQueue
  queue es = record { size = size; entries = es; sync = false; locked = locked }

  append-ne-nil : (es : List Bytes) (v : Bytes) → es ++ v ∷ [] ≢ []
  append-ne-nil [] v e = cc
  append-ne-nil (x ∷ es) v e = cc

  consume_all-queue :
      (es vs : List Bytes)
      → es ≢ []
      → size ≤ length es + 1
      → consume_all (queue es) vs ≡ returned (slid (queue es) (fresh es vs)) (fresh es vs)
  unfolding consume_all fresh queue
  consume_all-queue [] vs some_entry full = absurd (some_entry refl)
  consume_all-queue (first ∷ rest) [] some_entry full = rw (append-nil rest)
  consume_all-queue (first ∷ rest) (v ∷ vs) some_entry full =
      elim (Bool-cases (contains (first ∷ rest) v)) [
        | inl old ↦
            rw
              (
                consume_all,
                push_pop-old (queue (first ∷ rest)) first rest v refl refl full old,
                old,
              )
              (consume_all-queue (first ∷ rest) vs some_entry full)
        | inr new ↦ rw (
          consume_all,
          push_pop-new (queue (first ∷ rest)) first rest v refl refl full new,
          new,
          consume_all-queue (rest ++ v ∷ []) vs (append-ne-nil rest v)
              (omega (arith, length-append rest (v ∷ []))),
          append_assoc rest (v ∷ []) (fresh (rest ++ v ∷ []) vs),
        )
      ]

-- On a queue that is full, not empty and not synchronised, Consume never panics or blocks. It
-- prints the messages that a window of the queue's entries lets through, and the queue keeps as
-- many of the last of them as it has entries. No printed message equals one in the window in front
-- of it.
pub consume_all-fresh :
    (mq : MessageQueue) (vs : List Bytes)
    → mq.sync ≡ false
    → mq.entries ≢ []
    → mq.size ≤ length mq.entries + 1
    → (consume_all mq vs ≡ returned (slid mq (fresh mq.entries vs)) (fresh mq.entries vs))
      × Spaced mq.entries (fresh mq.entries vs)
consume_all-fresh mq vs plain some_entry full = (
  subst
      (λ (b : Bool).
        consume_all (record mq { sync = b }) vs
        ≡ returned (slid (record mq { sync = b }) (fresh mq.entries vs)) (fresh mq.entries vs))
      (sym plain)
      (unfold queue in consume_all-queue mq.size mq.locked mq.entries vs some_entry full),
  fresh-Spaced mq.entries vs,
)
