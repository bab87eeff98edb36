-- ===== src/Diskstorage/Fsm.antt =====
-- diskstorage/fsm.go: the state machine over a file of slots, one for each key.
pub mod Slots
pub mod Faults
pub mod Snapshot
use raft_demo.Base.{
  ℕ, suc, ◌+◌, ◌-◌, ◌*◌, ◌%◌, ◌^◌, Bool, true, false, Option, none, some, List, [], ◌∷◌, ◌++◌,
  Bytes, length, replicate, ltb, dash, if◌then◌else◌,
}
use raft_demo.Go.Strings.{join}
use raft_demo.Go.Strconv.{ℤ, pos, negsuc, atoi}
use raft_demo.Go.Files.{File, write, overwrite, read_at}
use raft_demo.Pb.{Operation, get, set, delete, other, Command, Log, Codec}

-- storeValuesOffset
abbrev pub value_size : ℕ
value_size = 1024

-- strings.Repeat("@", s.valueSize)
unfoldable pub store_value : Bytes
store_value = replicate value_size b'@'

-- The fields of Store that the state machine reads and writes.
pub record Store : Type 0 where
  pub local : Bytes
  pub logging : Bool
  pub log_file : File

-- What Apply does: it returns a text, or the error of Unmarshal, or panics.
pub data Outcome : Type 0 where
  response : Bytes → Outcome
  failure : Outcome
  panicked : Outcome

-- f.valueSize * pos in the 64 bits of an int
abbrev pub product_bits : ℤ → ℕ
product_bits (pos n) = value_size * n % 2 ^ 64
product_bits (negsuc n) = (2 ^ 64 - value_size * suc n % 2 ^ 64) % 2 ^ 64

-- The stride of a key; `none` where it is negative, which WriteAt and ReadAt refuse.
unfoldable pub stride : ℤ → Option ℕ
stride k = let bits = product_bits k in if ltb bits (2 ^ 63) then some bits else none

-- the stride of the text of a key; `none` is a panic, of the method or after its call of the file
abbrev pub key_stride : Bytes → Option ℕ
key_stride key = elim (atoi key) [ none ↦ none | some k ↦ stride k ]

-- applySet; `none` is a panic
unfoldable pub apply_set : Store → Bytes → Bytes → Option (Store × Bytes)
apply_set f key value = elim (key_stride key) [
  | none ↦ none
  | some off ↦ some (record f { local = overwrite f.local off store_value }, [])
]

-- applyDelete, which no command reaches
unfoldable pub apply_delete : Store → Bytes → Option (Store × Bytes)
apply_delete f key = elim (key_stride key) [
  | none ↦ none
  | some off ↦ some (record f { local = overwrite f.local off (replicate value_size b' ') }, [])
]

-- applyGet
unfoldable pub apply_get : Store → Bytes → Option Bytes
apply_get f key = elim (key_stride key) [ none ↦ none | some off ↦ read_at f.local value_size off ]

abbrev pub respond : Bytes → Bytes → Outcome
respond ip reply = response (join (ip ∷ reply ∷ []) (dash ∷ []))

-- the switch of Apply
unfoldable pub dispatch : Store → Command → Store × Outcome
dispatch f c = elim c.op [
  | set ↦ elim (apply_set f c.key c.value) [
    | none ↦ (f, panicked)
    | some done ↦ (done.0, respond c.ip done.1)
  ]
  | get ↦ elim (apply_get f c.key) [ none ↦ (f, panicked) | some reply ↦ (f, respond c.ip reply) ]
  | _ ↦ (f, panicked)
]

-- the deferred write, of the command alone
unfoldable pub log_command : Codec → Store → ℕ → Command → Store
log_command pb f index c =
    if f.logging
    then record f { log_file = write f.log_file (pb.marshal (record c { id = index })).0 }
    else f

-- Apply
unfoldable pub apply : Codec → Store → Log → Store × Outcome
apply pb f l = elim (pb.unmarshal l.bytes) [
  | none ↦ (f, failure)
  | some c ↦ let (f', outcome) = dispatch f c in (log_command pb f' l.index c, outcome)
]
