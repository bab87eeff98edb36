-- ===== src/Replication/Invariant.antt =====
-- What holds of every member in every reachable state.
use raft_demo.Base.{
  ℕ, ◌≤◌, ◌≡◌, refl, ap, ◌∙◌, true, some, List, [], ◌∷◌, ◌++◌, get_elem?, take, length,
  length-append, arith, eqb, update, All, All-append, Bool-cases, inl, inr, subst, sym,
}
use raft_demo.Pb.{Log, Codec}
use raft_demo.Kvstore.Fsm.{Store, apply, run}
use raft_demo.Kvstore.Recovery.{IsLoggable}
use raft_demo.Logger.Fsm
use raft_demo.Logger.Fsm.{Logger}
use raft_demo.Replication.{
  Replica, Recorder, System, goes_on, hand, note, Step, commits, applies, records, Reach, here,
  next, init,
}
use raft_demo.Replication.Prefixes.{
  take-append_of_le, take-concat, survives, run-concat, run_logger-concat,
}

module _ (pb : Codec) where
  -- A replica is what its first entries make of its start, and runs unless one of them is fatal.
  pub record IsCurrent (start : Store) (committed : List Log) (r : Replica) : Type 0 where
    pub within : r.handed ≤ length committed
    pub state : r.store ≡ run pb start (take r.handed committed)
    pub alive : r.running ≡ survives pb (take r.handed committed)

  pub record IsNoted (start : Logger) (committed : List Log) (r : Recorder) : Type 0 where
    pub within : r.handed ≤ length committed
    pub state : r.logger ≡ Fsm.run pb start (take r.handed committed)

  pub record Inv (stores : ℕ → Store) (loggers : ℕ → Logger) (s : System) : Type 0 where
    pub loggable : All (IsLoggable pb) s.committed
    pub current : (i : ℕ) → IsCurrent (stores i) s.committed (s.replica i)
    pub noted : (i : ℕ) → IsNoted (loggers i) s.committed (s.recorder i)

  IsCurrent-append :
      (start : Store) (committed : List Log) (r : Replica) (l : Log)
      → IsCurrent start committed r
      → IsCurrent start (committed ++ l ∷ []) r
  IsCurrent-append start committed r l c =
      let same = take-append_of_le r.handed committed (l ∷ []) c.within in
      record {
        within = omega (arith, length-append committed (l ∷ []), c.within);
        state = rw same c.state;
        alive = rw same c.alive;
      }

  IsNoted-append :
      (start : Logger) (committed : List Log) (r : Recorder) (l : Log)
      → IsNoted start committed r
      → IsNoted start (committed ++ l ∷ []) r
  IsNoted-append start committed r l c = record {
    within = omega (arith, length-append committed (l ∷ []), c.within);
    state = rw (take-append_of_le r.handed committed (l ∷ []) c.within) c.state;
  }

  hand-IsCurrent :
      (start : Store) (committed : List Log) (r : Replica) (l : Log)
      → IsCurrent start committed r
      → r.running ≡ true
      → get_elem? committed r.handed ≡ some l
      → IsCurrent start committed (hand pb r l)
  unfolding hand
  hand-IsCurrent start committed r l c runs e =
      let (longer, below) = take-concat r.handed committed l e in
      let (after, lives) = run-concat pb start (take r.handed committed) l (sym c.alive ∙ runs) in
      record {
        within = omega (arith, below);
        state =
            ap (λ (f : Store). (apply pb f l).0) c.state
            ∙ sym after
            ∙ ap (run pb start) (sym longer);
        alive =
            ap (λ (f : Store). goes_on (apply pb f l).1) c.state
            ∙ sym lives
            ∙ ap (survives pb) (sym longer);
      }

  note-IsNoted :
      (start : Logger) (committed : List Log) (r : Recorder) (l : Log)
      → IsNoted start committed r
      → get_elem? committed r.handed ≡ some l
      → IsNoted start committed (note pb r l)
  unfolding note
  note-IsNoted start committed r l c e =
      let (longer, below) = take-concat r.handed committed l e in
      record {
        within = omega (arith, below);
        state =
            ap (λ (g : Logger). (Fsm.apply pb g l).0) c.state
            ∙ sym (run_logger-concat pb start (take r.handed committed) l)
            ∙ ap (Fsm.run pb start) (sym longer);
      }

  -- A family that is updated at one index has a property that holds at the index and of the rest.
  update_all {ℓ κ} :
      {A : Type ℓ} (P : ℕ → A → Type κ) (f : ℕ → A) (i : ℕ) (a : A)
      → P i a
      → ((j : ℕ) → P j (f j))
      → (j : ℕ) → P j (update f i a j)
  update_all P f i a here_too rest j = elim (Bool-cases (eqb i j)) [
    | inl same ↦ let e : i ≡ j = ground arith in rw (same) (subst (λ k. P k a) e here_too)
    | inr apart ↦ rw (apart) (rest j)
  ]

  Step-Inv :
      {stores : ℕ → Store} {loggers : ℕ → Logger} {s t : System}
      → Inv stores loggers s
      → Step pb s t
      → Inv stores loggers t
  Step-Inv {stores} {loggers} {s} inv (commits l h) = record {
    loggable = All-append (IsLoggable pb) s.committed (l ∷ []) inv.loggable (h, tt);
    current = λ i. IsCurrent-append (stores i) s.committed (s.replica i) l (inv.current i);
    noted = λ i. IsNoted-append (loggers i) s.committed (s.recorder i) l (inv.noted i);
  }
  Step-Inv {stores} {loggers} {s} inv (applies i l runs e) = record {
    loggable = inv.loggable;
    current =
        update_all (λ j r. IsCurrent (stores j) s.committed r) s.replica i (hand pb (s.replica i) l)
          (hand-IsCurrent (stores i) s.committed (s.replica i) l (inv.current i) runs e)
          inv.current;
    noted = inv.noted;
  }
  Step-Inv {stores} {loggers} {s} inv (records i l e) = record {
    loggable = inv.loggable;
    current = inv.current;
    noted =
        update_all (λ j r. IsNoted (loggers j) s.committed r) s.recorder i
          (note pb (s.recorder i) l)
          (note-IsNoted (loggers i) s.committed (s.recorder i) l (inv.noted i) e) inv.noted;
  }

  pub Reach-Inv :
      {stores : ℕ → Store} {loggers : ℕ → Logger} {s : System}
      → Reach pb (init stores loggers) s
      → Inv stores loggers s
  Reach-Inv here = record {
    loggable = tt;
    current = λ i. record {
      within = omega arith;
      state = unfold run in refl;
      alive = unfold survives in refl;
    };
    noted = λ i. record { within = omega arith; state = unfold Fsm.run in refl };
  }
  Reach-Inv (next r st) = Step-Inv (Reach-Inv r) st
