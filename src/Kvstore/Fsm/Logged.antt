-- ===== src/Kvstore/Fsm/Logged.antt =====
-- What a replica of kvstore leaves in its log, and how its map follows from it.
use raft_demo.Base.{
  ℕ, ◌≡◌, refl, sym, true, none, some, List, [], ◌∷◌, ◌++◌, append_assoc, append-nil, length, arith,
  Option-cases, inl, inr,
}
use raft_demo.Base.Dict
use raft_demo.Base.Dict.{Dict}
use raft_demo.Go.Files.{write, write_end, write_offset}
use raft_demo.Go.Binary.{put_int32}
use raft_demo.Pb.{Operation, get, set, Command, Log, Codec}
use raft_demo.Frames.{frame, frames}
use raft_demo.Recovery.State.{install_command, install_commands}
use raft_demo.Kvstore.Fsm.{Store, apply_set, dispatch, log_command, apply, run}

-- the rest of the entries, if the switch of Apply knows the operation
abbrev pub go_on : Operation → List Command → List Command
go_on set cs = cs
go_on get cs = cs
go_on _ cs = []

module _ (pb : Codec) where
  -- the commands that the entries hold, with the indices for Ids, up to the one that panics
  unfoldable pub logged : List Log → List Command
  logged [] = []
  logged (l ∷ ls) = elim (pb.unmarshal l.bytes) [
    | none ↦ logged ls
    | some c ↦ record c { id = l.index } ∷ go_on c.op (logged ls)
  ]

  pub m-log_command : (f : Store) (index : ℕ) (c : Command) → (log_command pb f index c).m ≡ f.m
  unfolding log_command
  m-log_command f index c = ground arith

  -- The map of the replica is what the logged commands make of the map that it began with.
  pub map-run : (f : Store) (ls : List Log) → (run pb f ls).m ≡ install_commands f.m (logged ls)
  unfolding run apply dispatch apply_set logged install_commands install_command
  map-run f [] = refl
  map-run f (l ∷ ls) = elim (Option-cases (pb.unmarshal l.bytes)) [
    | inl e ↦ ground (arith, map-run f ls)
    | inr (c, e) ↦
        let stored : Store = record f { m = Dict.put f.m c.key c.value } in
        ground (
          arith,
          m-log_command stored l.index c,
          m-log_command f l.index c,
          map-run (log_command pb stored l.index c) ls,
          map-run (log_command pb f l.index c) ls,
        )
  ]

  -- A log at whose end its descriptor stands.
  pub record IsAppending (f : Store) : Type 0 where
    pub is_logging : f.logging ≡ true
    pub at_end : f.log_file.offset ≡ length f.log_file.content

  log_command-appends :
      (f : Store) (index : ℕ) (c : Command)
      → IsAppending f
      → ((log_command pb f index c).log_file.content
          ≡ f.log_file.content ++ frame pb (record c { id = index }))
        × IsAppending (log_command pb f index c)
  unfolding log_command
  log_command-appends f index c a =
      let serialized = (pb.marshal (record c { id = index })).0 in
      let word = put_int32 (length serialized) in
      let middle = write f.log_file word in
      ground (
        arith,
        write_end f.log_file word a.at_end,
        write_offset f.log_file word a.at_end,
        write_end middle serialized,
        write_offset middle serialized,
        append_assoc f.log_file.content word serialized,
      )

  -- What the run adds to the log is the frames of the logged commands.
  pub content-run :
      (f : Store) (ls : List Log)
      → IsAppending f
      → (run pb f ls).log_file.content ≡ f.log_file.content ++ frames pb (logged ls)
  unfolding run apply dispatch apply_set logged frames
  content-run f [] a = sym (append-nil f.log_file.content)
  content-run f (l ∷ ls) a = elim (Option-cases (pb.unmarshal l.bytes)) [
    | inl e ↦ ground (arith, content-run f ls a)
    | inr (c, e) ↦
        let stored : Store = record f { m = Dict.put f.m c.key c.value } in
        let after_set =
          log_command-appends stored l.index c
            (record { is_logging = a.is_logging; at_end = a.at_end }) in
        let after_get = log_command-appends f l.index c a in
        ground (
          arith,
          after_set,
          after_get,
          content-run (log_command pb stored l.index c) ls after_set.1,
          content-run (log_command pb f l.index c) ls after_get.1,
          append_assoc f.log_file.content (frame pb (record c { id = l.index }))
              (frames pb (logged ls)),
          append-nil (frame pb (record c { id = l.index })),
        )
  ]

  logging-log_command :
      (f : Store) (index : ℕ) (c : Command) → (log_command pb f index c).logging ≡ f.logging
  unfolding log_command
  logging-log_command f index c = ground arith

  -- No entry switches the log on or off.
  pub logging-run : (f : Store) (ls : List Log) → (run pb f ls).logging ≡ f.logging
  unfolding run apply dispatch apply_set
  logging-run f [] = refl
  logging-run f (l ∷ ls) = elim (Option-cases (pb.unmarshal l.bytes)) [
    | inl e ↦ ground (arith, logging-run f ls)
    | inr (c, e) ↦
        let stored : Store = record f { m = Dict.put f.m c.key c.value } in
        ground (
          arith,
          logging-log_command stored l.index c,
          logging-log_command f l.index c,
          logging-run (log_command pb stored l.index c) ls,
          logging-run (log_command pb f l.index c) ls,
        )
  ]
