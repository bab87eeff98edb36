-- ===== src/Kvstore/Fsm/Reopened.antt =====
-- A replica that is started again over the log of an earlier run.
use raft_demo.Base.{
  ℕ, ◌≡◌, true, some, List, [], ◌∷◌, ◌++◌, append_assoc, append-nil, Bytes, length, drop, arith,
  Option-cases, inl, inr,
}
use raft_demo.Base.Dict
use raft_demo.Go.Binary.{put_int32}
use raft_demo.Go.Files.{write}
use raft_demo.Go.Files.Laws.{IsOver, write-IsOver}
use raft_demo.Pb.{Command, Log, Codec}
use raft_demo.Frames.{frame, frames}
use raft_demo.Kvstore.Files.{exists, create_file}
use raft_demo.Kvstore.Fsm.{Store, apply_set, dispatch, log_command, apply, run}
use raft_demo.Kvstore.Fsm.Logged.{logged}

module _ (pb : Codec) (old : Bytes) where
  log_command-IsOver :
      (f : Store) (index : ℕ) (c : Command) (written : Bytes)
      → f.logging ≡ true
      → IsOver old written f.log_file
      → IsOver old
          (written ++ frame pb (record c { id = index }))
          (log_command pb f index c).log_file
        × ((log_command pb f index c).logging ≡ true)
  unfolding log_command
  log_command-IsOver f index c written logs o =
      let serialized = (pb.marshal (record c { id = index })).0 in
      let word = put_int32 (length serialized) in
      let after = write-IsOver old written word f.log_file o in
      let done = write-IsOver old (written ++ word) serialized (write f.log_file word) after in
      ground (arith, logs, done, append_assoc written word serialized)

  run-IsOver :
      (f : Store) (ls : List Log) (written : Bytes)
      → f.logging ≡ true
      → IsOver old written f.log_file
      → IsOver old (written ++ frames pb (logged pb ls)) (run pb f ls).log_file
  unfolding run apply dispatch apply_set logged frames
  run-IsOver f [] written logs o = rw (append-nil written) o
  run-IsOver f (l ∷ ls) written logs o = elim (Option-cases (pb.unmarshal l.bytes)) [
    | inl e ↦ ground (arith, run-IsOver f ls written logs o)
    | inr (c, e) ↦
        let stored : Store = record f { m = Dict.put f.m c.key c.value } in
        let part = frame pb (record c { id = l.index }) in
        let after_set = log_command-IsOver stored l.index c written logs o in
        let after_get = log_command-IsOver f l.index c written logs o in
        ground (
          arith,
          after_set,
          after_get,
          run-IsOver (log_command pb stored l.index c) ls (written ++ part) after_set.1 after_set.0,
          run-IsOver (log_command pb f l.index c) ls (written ++ part) after_get.1 after_get.0,
          append_assoc written part (frames pb (logged pb ls)),
          append-nil part,
        )
  ]

  -- A logging replica that starts with the log file of an earlier run writes over its beginning:
  -- after any entries the file holds the frames of the commands that were logged since, and behind
  -- them what of the old bytes they do not cover.
  pub content-run-create_file :
      (f : Store) (ls : List Log)
      → f.logging ≡ true
      → create_file (exists old) ≡ some f.log_file
      → (run pb f ls).log_file.content
        ≡ frames pb (logged pb ls) ++ drop (length (frames pb (logged pb ls))) old
  unfolding create_file
  content-run-create_file f ls logs opened = (run-IsOver f ls [] logs (ground (arith, opened))).0
