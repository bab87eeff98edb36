-- ===== src/Kvstore/Fsm/Stopped.antt =====
-- A committed DELETE, which the switch of Apply does not know.
use raft_demo.Base.{◌≡◌, some, List, [], ◌∷◌, ◌++◌, arith, Option-cases, inl, inr}
use raft_demo.Base.Dict
use raft_demo.Pb.{delete, Command, Log, Codec}
use raft_demo.Kvstore.Fsm.{Store, apply_set, dispatch, log_command, apply, run}
use raft_demo.Kvstore.Fsm.Logged.{m-log_command}

module _ (pb : Codec) where
  -- A committed entry that holds a DELETE ends a replica: whatever is committed behind it is never
  -- applied or logged, and the map is what the entries in front of it have left.
  pub run-delete :
      (f : Store) (ls rest : List Log) (l : Log) (c : Command)
      → pb.unmarshal l.bytes ≡ some c
      → c.op ≡ delete
      → (run pb f (ls ++ l ∷ rest) ≡ run pb f (ls ++ l ∷ []))
        × ((run pb f (ls ++ l ∷ rest)).m ≡ (run pb f ls).m)
  unfolding run apply dispatch apply_set
  run-delete f [] rest l c read e = ground (arith, read, e, m-log_command pb f l.index c)
  run-delete f (k ∷ ls) rest l c read e = elim (Option-cases (pb.unmarshal k.bytes)) [
    | inl bad ↦ ground (arith, bad, run-delete f ls rest l c read e)
    | inr (d, known) ↦
        let stored : Store = record f { m = Dict.put f.m d.key d.value } in
        ground (
          arith,
          known,
          run-delete (log_command pb stored k.index d) ls rest l c read e,
          run-delete (log_command pb f k.index d) ls rest l c read e,
        )
  ]
