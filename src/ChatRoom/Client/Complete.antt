-- ===== src/ChatRoom/Client/Complete.antt =====
-- Which of the messages that arrive at a chat client are printed, whatever the order in which the
-- replicas send them.
use raft_demo.Base.{
  ℕ, zero, suc, ◌<◌, ◌≤◌, ◌+◌, ◌≡◌, ◌≢◌, refl, subst, true, false, ◌||◌, List, [], ◌∷◌, ◌++◌, Bytes,
  length, length-replicate, replicate, drop, arith, Bool-cases, inl, inr, ◌==◌, eq_iff,
}
use raft_demo.ChatRoom.Queue.{MessageQueue, returned, contains, new_mq}
use raft_demo.ChatRoom.Client.{consume_all}
use raft_demo.ChatRoom.Client.Printed.{fresh, slid, consume_all-fresh}

contains-append :
    (xs ys : List Bytes) (v : Bytes) → contains (xs ++ ys) v ≡ (contains xs v || contains ys v)
unfolding contains
contains-append [] ys v = refl
contains-append (x ∷ xs) ys v = ground (arith, contains-append xs ys v, Bool-cases (x == v))

contains-drop : (xs : List Bytes) (v : Bytes) → contains (drop 1 xs) v ≡ true → contains xs v ≡ true
unfolding contains
contains-drop [] v h = h
contains-drop (x ∷ xs) v h = ground (arith, h, Bool-cases (x == v))

contains-fresh :
    (window vs : List Bytes) (v : Bytes)
    → (contains (fresh window vs) v || contains window v) ≡ (contains vs v || contains window v)
unfolding fresh contains
contains-fresh window [] v = refl
contains-fresh window (x ∷ xs) v = elim (Bool-cases (contains window x)) [
  | inl old ↦
      let ih = contains-fresh window xs v in
      let same : x ≡ v → contains window v ≡ true =
        λ e. subst (λ y. contains window y ≡ true) e old in
      rw (fresh, old) (ground (arith, ih, eq_iff x v, same))
  | inr new ↦
      let later = drop 1 window ++ x ∷ [] in
      let ih = contains-fresh later xs v in
      let split = contains-append (drop 1 window) (x ∷ []) v in
      rw (fresh, new)
        (ground (
          arith,
          ih,
          split,
          contains-drop window v,
          Bool-cases (x == v),
          Bool-cases (contains (drop 1 window) v),
        ))
]

contains-replicate : (n : ℕ) (v : Bytes) → v ≢ [] → contains (replicate n []) v ≡ false
unfolding contains
contains-replicate zero v h = refl
contains-replicate (suc n) v h = ground (arith, contains-replicate n v h, eq_iff [] v)

-- On a new queue that is not empty, which has no lock, Consume prints a message that is not the
-- empty text exactly if it has arrived, at any place and any number of times.
pub consume_all-contains :
    (size : ℕ) (vs : List Bytes) (v : Bytes)
    → 0 < size
    → v ≢ []
    → (mq : MessageQueue) × (out : List Bytes) × (consume_all (new_mq size false) vs
        ≡ returned mq out)
      × (contains out v ≡ contains vs v)
unfolding new_mq
consume_all-contains zero vs v h some_text = absurd (omega arith)
consume_all-contains (suc n) vs v h some_text =
    let mq = new_mq (suc n) false in
    let window : List Bytes = replicate (suc n) [] in
    let many : suc n ≤ length window + 1 = omega (arith, length-replicate {A = Bytes} (suc n) []) in
    let (ran, spaced) = consume_all-fresh mq vs refl (λ e. cc) many in
    let none_old = contains-replicate (suc n) v some_text in
    (
      slid mq (fresh window vs),
      fresh window vs,
      ran,
      ground (arith, contains-fresh window vs v, none_old),
    )
