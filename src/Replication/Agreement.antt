-- ===== src/Replication/Agreement.antt =====
-- Members that were handed the same entries, and members that were handed more.
use raft_demo.Base.{
  ◌++◌, true, drop, ◌≤◌, ℕ, ◌≡◌, ap, ◌∙◌, sym, some, [], take, length, get_or, Bytes,
}
use raft_demo.Base.Dict
use raft_demo.Pb.{get, Command, Log, Codec}
use raft_demo.Recovery.State.{MockState, installed}
use raft_demo.Recovery.State.Install.{or_else, or_else_assoc}
use raft_demo.Recovery.Requester.{recover}
use raft_demo.Recovery.Requester.Lines.{IsAddress}
use raft_demo.Kvstore.Fsm.{Store, response, respond, apply}
use raft_demo.Kvstore.Fsm.Logged.{logged, map-run, IsAppending}
use raft_demo.Kvstore.Fsm.Replies.{last_set, last_set-append, get-run, apply-run-get}
use raft_demo.Kvstore.Recovery.{IsLoggable}
use raft_demo.Kvstore.Transfer.Whole.{answer_of, recover-run}
use raft_demo.Logger.Fsm.{Logger}
use raft_demo.Replication.{System, Reach, init}
use raft_demo.Replication.Prefixes.{All-take, take-take-drop, logged-append}
use raft_demo.Replication.Invariant.{Reach-Inv}

module _ (pb : Codec) (stores : ℕ → Store) (loggers : ℕ → Logger) (s : System)
    (reached : Reach pb (init stores loggers) s) where
  -- In every reachable state of the cluster, two replicas that started with the same map and were
  -- handed the same number of entries have the same map, and one of them runs if the other does.
  pub Reach-agree :
      (i j : ℕ)
      → (stores i).m ≡ (stores j).m
      → (s.replica i).handed ≡ (s.replica j).handed
      → ((s.replica i).store.m ≡ (s.replica j).store.m)
        × ((s.replica i).running ≡ (s.replica j).running)
  Reach-agree i j same e =
      let a = (Reach-Inv pb reached).current i in
      let b = (Reach-Inv pb reached).current j in
      (
        ap (λ (f : Store). f.m) a.state
            ∙ map-run pb (stores i) (take (s.replica i).handed s.committed)
            ∙ rw (same, e) (sym (map-run pb (stores j) (take (s.replica j).handed s.committed)))
            ∙ ap (λ (f : Store). f.m) (sym b.state),
        rw (a.alive, b.alive, e),
      )

  -- In every reachable state, take two replicas that started with the same map, the first of which
  -- still runs and was handed no more entries than the second. Then each key has in the second the
  -- value that the last SET of it stored among the entries that only the second was handed, and where
  -- there is none, the value that it has in the first. So replicas that were handed equally many
  -- entries have the same values.
  pub Reach-behind :
      (i j : ℕ) (k : Bytes)
      → (stores i).m ≡ (stores j).m
      → (s.replica i).running ≡ true
      → (s.replica i).handed ≤ (s.replica j).handed
      → Dict.get (s.replica j).store.m k
        ≡ or_else
            (last_set k
              (logged pb (drop (s.replica i).handed (take (s.replica j).handed s.committed))))
            (Dict.get (s.replica i).store.m k)
  Reach-behind i j k same runs behind =
      let a = (Reach-Inv pb reached).current i in
      let b = (Reach-Inv pb reached).current j in
      let first = take (s.replica i).handed s.committed in
      let rest = drop (s.replica i).handed (take (s.replica j).handed s.committed) in
      let split : take (s.replica j).handed s.committed ≡ first ++ rest =
        take-take-drop (s.replica i).handed (s.replica j).handed s.committed behind in
      let known : logged pb (first ++ rest) ≡ logged pb first ++ logged pb rest =
        logged-append pb first rest (sym a.alive ∙ runs) in
      ap (λ (f : Store). Dict.get f.m k) b.state
      ∙ get-run pb (stores j) (take (s.replica j).handed s.committed) k
      ∙ ap (λ ls. or_else (last_set k (logged pb ls)) (Dict.get (stores j).m k)) split
      ∙ ap (λ cs. or_else (last_set k cs) (Dict.get (stores j).m k)) known
      ∙ ap (λ v. or_else v (Dict.get (stores j).m k))
          (last_set-append k (logged pb first) (logged pb rest))
      ∙ sym (
          or_else_assoc (last_set k (logged pb rest)) (last_set k (logged pb first))
            (Dict.get (stores j).m k))
      ∙ ap
          (λ (m : Dict.Dict Bytes).
            or_else (last_set k (logged pb rest))
              (or_else (last_set k (logged pb first)) (Dict.get m k)))
          (sym same)
      ∙ ap (or_else (last_set k (logged pb rest))) (sym (get-run pb (stores i) first k))
      ∙ ap (λ (f : Store). or_else (last_set k (logged pb rest)) (Dict.get f.m k)) (sym a.state)

  -- In every reachable state, a replica that is handed a GET answers with the value that the last
  -- SET of the key stored among the committed entries in front of it, or with the value that the
  -- replica started with, or the empty text. So all replicas answer alike, in the order of the
  -- commits.
  pub apply-Reach :
      (i : ℕ) (l : Log) (c : Command)
      → pb.unmarshal l.bytes ≡ some c
      → c.op ≡ get
      → (apply pb (s.replica i).store l).1
        ≡ response (
            respond c.ip (
              get_or
                (or_else
                  (last_set c.key (logged pb (take (s.replica i).handed s.committed)))
                  (Dict.get (stores i).m c.key))
                []))
  apply-Reach i l c read e =
      ap (λ (f : Store). (apply pb f l).1) ((Reach-Inv pb reached).current i).state
      ∙ (apply-run-get pb (stores i) (take (s.replica i).handed s.committed) l c read e).0

  -- In every reachable state, the recovery program that asks a replica with a new log for its state,
  -- from an address with no dash and no newline, installs a state that, laid over the map that the
  -- replicas started with, is the map of every replica that was handed as many entries.
  pub recover-Reach :
      (i j : ℕ) (local_addr : Bytes)
      → IsAppending pb (stores i)
      → (stores i).log_file.content ≡ []
      → (stores i).m ≡ (stores j).m
      → (s.replica i).handed ≡ (s.replica j).handed
      → IsAddress local_addr
      → (n : ℕ) × (r : MockState) × (recover pb (answer_of (s.replica i).store) local_addr
          ≡ installed n r)
        × ((k : Bytes)
            → Dict.get (s.replica j).store.m k
              ≡ or_else (Dict.get r.state k) (Dict.get (stores j).m k))
  recover-Reach i j local_addr a fresh same e address =
      let inv = Reach-Inv pb reached in
      let ls = take (s.replica i).handed s.committed in
      let (r, whole, map) =
        recover-run pb (stores i) ls local_addr a fresh
          (All-take (IsLoggable pb) (s.replica i).handed s.committed inv.loggable) address in
      (
        length (logged pb ls),
        r,
        ap (λ (f : Store). recover pb (answer_of f) local_addr) (inv.current i).state ∙ whole,
        λ (k : Bytes).
            ap (λ (m : Dict.Dict Bytes). Dict.get m k)
              (sym (Reach-agree i j same e).0 ∙ ap (λ (f : Store). f.m) (inv.current i).state)
            ∙ map k
            ∙ ap (λ (m : Dict.Dict Bytes). or_else (Dict.get r.state k) (Dict.get m k)) same,
      )
