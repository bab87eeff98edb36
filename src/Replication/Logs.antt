-- ===== src/Replication/Logs.antt =====
-- The log files of the members, which grow by the same frames.
use raft_demo.Base.{
  ℕ, zero, suc, ◌≤◌, ◌≡◌, refl, ap, ◌∙◌, sym, List, [], ◌∷◌, ◌++◌, append_assoc, take, arith,
  Option-cases, inl, inr, Bytes,
}
use raft_demo.Pb.{Command, Log, Codec}
use raft_demo.Frames.{frames, frames-append}
use raft_demo.Kvstore.Fsm.{Store, run}
use raft_demo.Kvstore.Fsm.Logged.{logged, go_on, IsAppending, content-run}
use raft_demo.Logger.Fsm.{Logger}
use raft_demo.Replication.{System, Reach, init}
use raft_demo.Replication.Invariant.{Reach-Inv}

take_prefix {ℓ} :
    {A : Type ℓ} (n m : ℕ) (xs : List A) → n ≤ m → (ys : List A) × (take m xs ≡ take n xs ++ ys)
take_prefix zero m xs h = (take m xs, refl)
take_prefix (suc n) zero xs h = absurd (omega arith)
take_prefix (suc n) (suc m) [] h = ([], refl)
take_prefix (suc n) (suc m) (x ∷ xs) h =
    let (ys, e) = take_prefix n m xs (omega arith) in (ys, ap (λ l. x ∷ l) e)

module _ (pb : Codec) where
  -- what an operation lets through of more commands
  logged-append :
      (xs ys : List Log) → (cs : List Command) × (logged pb (xs ++ ys) ≡ logged pb xs ++ cs)
  unfolding logged
  logged-append [] ys = (logged pb ys, refl)
  logged-append (l ∷ xs) ys =
      let (cs, e) = logged-append xs ys in
      elim (Option-cases (pb.unmarshal l.bytes)) [
        | inl bad ↦ (cs, rw (logged, bad, e))
        | inr (c, read) ↦ (go_on c.op cs, ground (arith, read, e))
      ]

  -- In every reachable state of the cluster, of two replicas that log, whose log files had the same
  -- bytes when they started, the log of the one that was handed fewer entries, or as many, is the
  -- beginning of the log of the other.
  pub content-Reach :
      (stores : ℕ → Store) (loggers : ℕ → Logger) (s : System) (i j : ℕ)
      → Reach pb (init stores loggers) s
      → IsAppending pb (stores i)
      → IsAppending pb (stores j)
      → (stores i).log_file.content ≡ (stores j).log_file.content
      → (s.replica i).handed ≤ (s.replica j).handed
      → (rest : Bytes) × ((s.replica j).store.log_file.content
          ≡ (s.replica i).store.log_file.content ++ rest)
  content-Reach stores loggers s i j reached a b same h =
      let inv = Reach-Inv pb reached in
      let first = take (s.replica i).handed s.committed in
      let (more, longer) = take_prefix (s.replica i).handed (s.replica j).handed s.committed h in
      let (cs, split_up) = logged-append first more in
      let content = λ (f : Store). f.log_file.content in
      (
        frames pb cs,
        ap content ((inv.current j).state ∙ ap (run pb (stores j)) longer)
            ∙ content-run pb (stores j) (first ++ more) b
            ∙ rw (split_up, frames-append pb (logged pb first) cs, ← same)
                (sym (
                  append_assoc (stores i).log_file.content (frames pb (logged pb first))
                    (frames pb cs)))
            ∙ ap (λ (l : Bytes). l ++ frames pb cs)
                (sym (ap content (inv.current i).state ∙ content-run pb (stores i) first a)),
      )
