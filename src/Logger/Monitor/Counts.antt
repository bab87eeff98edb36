-- ===== src/Logger/Monitor/Counts.antt =====
-- The counts of a logger's throughput file.
use raft_demo.Base.{
  ℕ, suc, Bytes, append-nil, ◌+◌, ◌%◌, ◌^◌, ◌≡◌, refl, List, [], ◌∷◌, ◌++◌, length, arith,
  Option-cases, inl, inr,
}
use raft_demo.Pb.{Log, Codec}
use raft_demo.Go.Files.Laws.{IsOver, write-IsOver}
use raft_demo.Kvstore.Files.{line}
use raft_demo.Kvstore.Server.Throughput.{sum, IsWritten, IsWritten-line}
use raft_demo.Logger.Fsm.{record_command, apply}
use raft_demo.Logger.Fsm.Copies.{readable}
use raft_demo.Logger.Monitor.{Monitored, tick, Event, entry, timer, watch}

-- the entries among the events
abbrev pub entries : List Event → List Log
entries [] = []
entries (entry l ∷ es) = l ∷ entries es
entries (timer ∷ es) = entries es

-- how often the timer fires
abbrev pub ticks : List Event → ℕ
ticks [] = 0
ticks (entry l ∷ es) = ticks es
ticks (timer ∷ es) = suc (ticks es)

module _ (pb : Codec) where
  -- In every interleaving of entries and ticks of the timer, one line for each tick is written behind
  -- what was written before, over the old bytes of the file. The numbers in these lines and the
  -- counter add up to the counter at first and the number of the readable entries (modulo 2^64).
  pub counted-watch :
      (old written : Bytes) (s : Monitored) (es : List Event)
      → IsOver old written s.throughput
      → (ns : List ℕ) × IsWritten old written (watch pb s es).throughput ns
        × (length ns ≡ ticks es)
        × ((sum ns + (watch pb s es).logger.req) % 2 ^ 64
            ≡ (s.logger.req + length (readable pb (entries es))) % 2 ^ 64)
  unfolding watch readable apply record_command tick
  counted-watch old written s [] o = ([], rw (append-nil written) o, refl, omega arith)
  counted-watch old written s (entry l ∷ es) o = elim (Option-cases (pb.unmarshal l.bytes)) [
    | inl e ↦ rw (watch, apply, e, readable) (counted-watch old written s es o)
    | inr (c, e) ↦
        let next = record s { logger = record_command pb s.logger l.index c } in
        let req : next.logger.req ≡ (s.logger.req + 1) % 2 ^ 64 = refl in
        let (ns, w, ts, total) = counted-watch old written next es o in
        rw (watch, apply, e, readable) (ns, w, ts, omega (arith, total, req))
  ]
  counted-watch old written s (timer ∷ es) o =
      let n = s.logger.req in
      let (ns, w, ts, total) =
        counted-watch old (written ++ line n) (tick s) es
          (write-IsOver old written (line n) s.throughput o) in
      (
        n ∷ ns,
        IsWritten-line old written (watch pb (tick s) es).throughput n ns w,
        omega (arith, ts),
        omega (arith, total),
      )
