-- ===== src/Logger/Fsm/Copies.antt =====
-- The log of a logger process (logger/fsm.go) beside that of a replica (kvstore/fsm.go).
use raft_demo.Base.{
  ℕ, ◌+◌, ◌%◌, ◌^◌, ◌<◌, ◌≡◌, refl, sym, ap, ◌∙◌, none, some, List, [], ◌∷◌, ◌++◌, append_assoc,
  append-nil, length, arith, All, Option-cases, inl, inr,
}
use raft_demo.Go.Files.{write, write_end, write_offset}
use raft_demo.Go.Binary.{put_int32}
use raft_demo.Pb.{get, set, Command, Log, Codec}
use raft_demo.Frames.{frame, frames}
use raft_demo.Logger.Fsm.{Logger, record_command, apply, run}
use raft_demo.Kvstore.Fsm
use raft_demo.Kvstore.Fsm.{Store}
use raft_demo.Kvstore.Fsm.Logged.{logged, go_on, IsAppending, content-run}

abbrev pub AtEnd : Logger → Type 0
AtEnd s = s.log_file.offset ≡ length s.log_file.content

-- the operations that the switch of a replica knows
abbrev pub IsKnown : Command → Type 0
IsKnown c = elim c.op [ set ↦ Unit {0} | get ↦ Unit | _ ↦ ⊥ ]

module _ (pb : Codec) where
  -- the commands that the entries hold, with the indices for Ids
  unfoldable pub readable : List Log → List Command
  readable [] = []
  readable (l ∷ ls) = elim (pb.unmarshal l.bytes) [
    | none ↦ readable ls
    | some c ↦ record c { id = l.index } ∷ readable ls
  ]

  record_command-appends :
      (s : Logger) (index : ℕ) (c : Command)
      → AtEnd s
      → ((record_command pb s index c).log_file.content
          ≡ s.log_file.content ++ frame pb (record c { id = index }))
        × AtEnd (record_command pb s index c)
  unfolding record_command
  record_command-appends s index c a =
      let serialized = (pb.marshal (record c { id = index })).0 in
      let word = put_int32 (length serialized) in
      let middle = write s.log_file word in
      ground (
        arith,
        write_end s.log_file word a,
        write_offset s.log_file word a,
        write_end middle serialized,
        write_offset middle serialized,
        append_assoc s.log_file.content word serialized,
      )

  -- A logger whose descriptor stands at the end of its log, and whose counter is below 2^64,
  -- appends the frames of all readable commands to the log, and counts them (modulo 2^64).
  pub run-readable :
      (s : Logger) (ls : List Log)
      → AtEnd s
      → s.req < 2 ^ 64
      → ((run pb s ls).log_file.content ≡ s.log_file.content ++ frames pb (readable ls))
        × ((run pb s ls).req ≡ (s.req + length (readable ls)) % 2 ^ 64)
  unfolding run apply readable frames
  run-readable s [] a h = (sym (append-nil s.log_file.content), omega arith)
  run-readable s (l ∷ ls) a h = elim (Option-cases (pb.unmarshal l.bytes)) [
    | inl e ↦ ground (arith, run-readable s ls a h)
    | inr (c, e) ↦
        let after = record_command-appends s l.index c a in
        let req : (record_command pb s l.index c).req ≡ (s.req + 1) % 2 ^ 64 =
          unfold record_command in refl in
        ground (
          arith,
          after,
          req,
          run-readable (record_command pb s l.index c) ls after.1 (omega (arith, req)),
          append_assoc s.log_file.content (frame pb (record c { id = l.index }))
              (frames pb (readable ls)),
        )
  ]

  go_on-IsKnown : (c : Command) (cs : List Command) → IsKnown c → go_on c.op cs ≡ cs
  go_on-IsKnown c cs k = ground arith

  logged-readable : (ls : List Log) → All IsKnown (readable ls) → logged pb ls ≡ readable ls
  unfolding readable logged
  logged-readable [] h = refl
  logged-readable (l ∷ ls) h = elim (Option-cases (pb.unmarshal l.bytes)) [
    | inl e ↦ rw (e, readable, logged) (logged-readable ls (rw (e, readable) at h))
    | inr (c, e) ↦
        let (known, later) = rw (e, readable) at h in
        rw (e, readable, logged)
          (ap (λ (cs : List Command). record c { id = l.index } ∷ cs)
            (go_on-IsKnown c (logged pb ls) known ∙ logged-readable ls later))
  ]

  -- Take a logger and a logging replica whose log files have the same bytes and whose descriptors
  -- stand at their ends. If the commands of the entries are all SET or GET, then after the same
  -- entries the two files have the same bytes again. (The logger's counter is below 2^64.)
  pub content-run-run :
      (s : Logger) (f : Store) (ls : List Log)
      → AtEnd s
      → s.req < 2 ^ 64
      → IsAppending pb f
      → s.log_file.content ≡ f.log_file.content
      → All IsKnown (readable ls)
      → (run pb s ls).log_file.content ≡ (Fsm.run pb f ls).log_file.content
  content-run-run s f ls a r b same known =
      (run-readable s ls a r).0
      ∙ rw (same, ← logged-readable ls known) (sym (content-run pb f ls b))
