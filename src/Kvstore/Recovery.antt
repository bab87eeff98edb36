-- ===== src/Kvstore/Recovery.antt =====
-- The log of a replica (kvstore/fsm.go), installed by recovery/state.go.
use raft_demo.Base.{
  suc, ◌^◌, ◌<◌, ◌≡◌, ◌≢◌, ap, ◌∙◌, List, [], ◌∷◌, some, Bytes, length, arith, All, Option-cases,
  inl, inr,
}
use raft_demo.Base.Dict
use raft_demo.Pb.{Operation, get, set, Command, Log, Codec}
use raft_demo.Frames.{frames, IsFrameable}
use raft_demo.Recovery.State.{
  installed, new_mock_state, install_commands, install_received_state, MockState,
}
use raft_demo.Recovery.State.Loop.{read_commands-frames, length-frames}
use raft_demo.Recovery.State.Install.{or_else, get-install_commands}
use raft_demo.Kvstore.Fsm.{Store, run}
use raft_demo.Kvstore.Fsm.Logged.{logged, go_on, map-run, IsAppending, content-run}

module _ (pb : Codec) where
  -- An entry with an index from 1 on (a uint64), whose command, if it holds one, is shorter than 2
  -- GiB.
  pub record IsLoggable (l : Log) : Type 0 where
    pub indexed : l.index ≢ 0
    pub fits : l.index < 2 ^ 64
    pub short :
        (c : Command)
        → pb.unmarshal l.bytes ≡ some c
        → length (pb.marshal (record c { id = l.index })).0 < 2 ^ 31

  All-go_on :
      (o : Operation) (cs : List Command)
      → All (IsFrameable pb) cs
      → All (IsFrameable pb) (go_on o cs)
  All-go_on set cs h = h
  All-go_on get cs h = h
  All-go_on _ cs h = tt

  pub logged-IsFrameable : (ls : List Log) → All IsLoggable ls → All (IsFrameable pb) (logged pb ls)
  unfolding logged
  logged-IsFrameable [] h = tt
  logged-IsFrameable (l ∷ ls) (h, hs) = elim (Option-cases (pb.unmarshal l.bytes)) [
    | inl e ↦ rw (e, logged) (logged-IsFrameable ls hs)
    | inr (c, e) ↦
        rw (e, logged)
          (
            record {
              marshalled = pb.marshal_of_read l.bytes c l.index e h.fits;
              not_empty = pb.marshal_pos (record c { id = l.index }) h.indexed h.fits;
              short = h.short c e;
            },
            All-go_on c.op (logged pb ls) (logged-IsFrameable ls hs),
          )
  ]

  pub install-frames :
      (cs : List Command) (m : MockState)
      → All (IsFrameable pb) cs
      → install_received_state pb m (frames pb cs)
        ≡ installed (length cs) (record { state = install_commands m.state cs })
  unfolding install_received_state
  install-frames cs m h = rw (
      read_commands-frames pb (suc (length (frames pb cs))) cs h
        (omega (arith, length-frames pb cs)))

  -- Take a replica that logs to a new file, and committed entries with indices from 1 on (of 64
  -- bits) whose commands are shorter than 2 GiB. Then the installation of its log in a new state
  -- reads as many commands as were logged, and the state that it builds, laid over the map that the
  -- replica began with, has for every key the value of the replica's map.
  pub recovery :
      (f : Store) (ls : List Log)
      → IsAppending pb f
      → f.log_file.content ≡ []
      → All IsLoggable ls
      → (r : MockState) × (install_received_state pb new_mock_state (run pb f ls).log_file.content
          ≡ installed (length (logged pb ls)) r)
        × ((k : Bytes) → Dict.get (run pb f ls).m k ≡ or_else (Dict.get r.state k) (Dict.get f.m k))
  recovery f ls a fresh h = (
    record { state = install_commands Dict.empty (logged pb ls) },
    ap (install_received_state pb new_mock_state) (content-run pb f ls a ∙ rw fresh)
        ∙ install-frames (logged pb ls) new_mock_state (logged-IsFrameable ls h),
    λ k. rw (map-run pb f ls) (get-install_commands f.m (logged pb ls) k),
  )
