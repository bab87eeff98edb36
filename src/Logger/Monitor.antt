-- ===== src/Logger/Monitor.antt =====
-- monitor of logger/logger.go, beside Apply.
pub mod Counts
use raft_demo.Base.{ℕ, List, [], ◌∷◌, ◌++◌}
use raft_demo.Go.Files.{File, write}
use raft_demo.Kvstore.Files.{line}
use raft_demo.Pb.{Log, Codec}
use raft_demo.Logger.Fsm.{Logger, apply}

-- A logger with its throughput file.
pub record Monitored : Type 0 where
  pub logger : Logger
  pub throughput : File

-- one tick of monitor: the counter is swapped with 0, and written where the
-- descriptor stands
unfoldable pub tick : Monitored → Monitored
tick s = record {
  logger = record s.logger { req = 0 };
  throughput = write s.throughput (line s.logger.req);
}

-- What happens to a logger, in any order: Raft hands it an entry, or its timer fires.
pub data Event : Type 0 where
  entry : Log → Event
  timer : Event

unfoldable pub watch : Codec → Monitored → List Event → Monitored
watch pb s [] = s
watch pb s (entry l ∷ es) = watch pb (record s { logger = (apply pb s.logger l).0 }) es
watch pb s (timer ∷ es) = watch pb (tick s) es
