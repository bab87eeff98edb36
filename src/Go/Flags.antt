-- ===== src/Go/Flags.antt =====
-- Package flag, for flags that are strings: what Parse makes of the arguments of a command.
pub mod Laws
use raft_demo.Base.{
  ℕ, Bool, true, false, Option, none, some, List, [], ◌∷◌, Bytes, dash, eqb, if◌then◌else◌,
}
use raft_demo.Base.Dict
use raft_demo.Base.Dict.{Dict}

-- What an argument is where a flag may stand: the end of the flags, which stays or is dropped, a
-- fault, or the name of a flag, with its value or without.
pub data Argument : Type 0 where
  last : Argument
  terminator : Argument
  bad : Argument
  named : Bytes → Argument
  valued : Bytes → Bytes → Argument

abbrev pub prefixed : ℕ → Argument → Argument
prefixed b last = last
prefixed b terminator = terminator
prefixed b bad = bad
prefixed b (named name) = named (b ∷ name)
prefixed b (valued name value) = valued (b ∷ name) value

-- the text behind the first byte of a name, up to the first '='
unfoldable pub cut_value : Bytes → Argument
cut_value [] = named []
cut_value (b ∷ s) =
    let longer = prefixed b (cut_value s) in if eqb b b'=' then valued [] s else longer

-- the text behind the minus signs
unfoldable pub read_name : Bytes → Argument
read_name [] = bad
read_name (b ∷ s) = if eqb b dash then bad else if eqb b b'=' then bad else prefixed b (cut_value s)

-- the text behind two minus signs
abbrev pub read_long : Bytes → Argument
read_long [] = terminator
read_long (b ∷ s) = read_name (b ∷ s)

unfoldable pub read_argument : Bytes → Argument
read_argument [] = last
read_argument (b ∷ []) = last
read_argument (b ∷ c ∷ s) =
    if eqb b dash then (if eqb c dash then read_long s else read_name (c ∷ s)) else last

-- Flags that are defined, or set, one after the other.
abbrev pub assign : Dict Bytes → List (Bytes × Bytes) → Dict Bytes
assign flags [] = flags
assign flags ((name, value) ∷ more) = assign (Dict.put flags name value) more

-- the flag of a name gets a value; there is no flag of any other name
unfoldable pub set_flag : Dict Bytes → Bytes → Bytes → Option (Dict Bytes)
set_flag flags name value = elim (Dict.get flags name) [
  | none ↦ none
  | some _ ↦ some (Dict.put flags name value)
]

-- Parse, for the flags that were defined, each with its default: their values, or `none` where the
-- process ends with a message
unfoldable pub parse : Dict Bytes → List Bytes → Option (Dict Bytes)
parse flags [] = some flags
parse flags (s ∷ []) = elim (read_argument s) [
  | valued name value ↦ set_flag flags name value
  | named name ↦ none
  | bad ↦ none
  | _ ↦ some flags
]
parse flags (s ∷ v ∷ rest) = elim (read_argument s) [
  | valued name value ↦ elim (set_flag flags name value) [
    | none ↦ none
    | some flags' ↦ parse flags' (v ∷ rest)
  ]
  | named name ↦ elim (set_flag flags name v) [ none ↦ none | some flags' ↦ parse flags' rest ]
  | bad ↦ none
  | _ ↦ some flags
]
