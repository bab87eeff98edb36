-- ===== src/Kvstore/Fsm.antt =====
-- kvstore/fsm.go: the state machine that every replica applies the committed entries to.
-- Values are kept as they are, since the constant compressValues is false.
pub mod Logged
pub mod Replies
pub mod Stopped
pub mod Reopened
use raft_demo.Base.{
  ℕ, Bool, true, false, Option, none, some, List, [], ◌∷◌, Bytes, length, get_or, dash,
  if◌then◌else◌,
}
use raft_demo.Base.Dict
use raft_demo.Base.Dict.{Dict}
use raft_demo.Go.Strings.{join}
use raft_demo.Go.Binary.{put_int32}
use raft_demo.Go.Files.{File, write}
use raft_demo.Pb.{Operation, get, set, delete, other, Command, Log, Codec}

-- The fields of Store that the state machine reads and writes.
pub record Store : Type 0 where
  pub m : Dict Bytes
  pub logging : Bool
  pub log_file : File

-- What Apply does: it returns a text, or the error of Unmarshal, or panics.
pub data Outcome : Type 0 where
  response : Bytes → Outcome
  failure : Outcome
  panicked : Outcome

unfoldable pub apply_set : Store → Bytes → Bytes → Store × Bytes
apply_set f key value = (record f { m = Dict.put f.m key value }, [])

unfoldable pub apply_get : Store → Bytes → Bytes
apply_get f key = get_or (Dict.get f.m key) []

-- strings.Join([]string{command.Ip, reply}, "-")
abbrev pub respond : Bytes → Bytes → Bytes
respond ip reply = join (ip ∷ reply ∷ []) (dash ∷ [])

-- the switch of Apply
unfoldable pub dispatch : Store → Command → Store × Outcome
dispatch f c = elim c.op [
  | set ↦ let (f', reply) = apply_set f c.key c.value in (f', response (respond c.ip reply))
  | get ↦ (f, response (respond c.ip (apply_get f c.key)))
  | _ ↦ (f, panicked)
]

-- the deferred writes: the length and the command, which has the index for its Id
unfoldable pub log_command : Codec → Store → ℕ → Command → Store
log_command pb f index c =
    let serialized = (pb.marshal (record c { id = index })).0 in
    if f.logging
    then record f { log_file = write (write f.log_file (put_int32 (length serialized))) serialized }
    else f

-- Apply. What is deferred is done also when the switch panics.
unfoldable pub apply : Codec → Store → Log → Store × Outcome
apply pb f l = elim (pb.unmarshal l.bytes) [
  | none ↦ (f, failure)
  | some c ↦ let (f', outcome) = dispatch f c in (log_command pb f' l.index c, outcome)
]

-- The entries in the order of their commit; after a panic the process is gone.
unfoldable pub run : Codec → Store → List Log → Store
run pb f [] = f
run pb f (l ∷ ls) =
    let (f', outcome) = apply pb f l in elim outcome [ panicked ↦ f' | _ ↦ run pb f' ls ]
