-- ===== src/Kvstore/Transfer.antt =====
-- kvstore/store.go: the transfer of the log to a node that asks for the state.
pub mod Whole
pub mod Stale
use raft_demo.Base.{
  ℕ, ◌+◌, ◌*◌, leb, eqb, ◌^◌, ◌-◌, Option, none, some, [], ◌∷◌, Bytes, dash, newline, if◌then◌else◌,
}
use raft_demo.Go.Strings.{split, trim_suffix}
use raft_demo.Go.Bufio.{read_string}
use raft_demo.Go.Strconv.{is_digit, max_int}
use raft_demo.Go.Files.{File}
use raft_demo.Kvstore.Files.{read_all}
use raft_demo.Kvstore.Fsm.{Store}

-- the digits that ParseUint reads: 0 at a wrong byte, and the largest uint64 at the first overflow
unfoldable pub scan_uint : Bytes → ℕ → ℕ
scan_uint [] n = n
scan_uint (c ∷ s) n =
    let next = n * 10 + (c - b'0') in
    let rest = scan_uint s next in
    if is_digit c then (if leb (2 ^ 64) next then 2 ^ 64 - 1 else rest) else 0

-- uint64(requestedLogIndex), where the error of Atoi is dropped: out of its range Atoi returns the
-- bound of an int
abbrev positive : ℕ → ℕ
positive n = if leb n max_int then n else max_int

abbrev negative : ℕ → ℕ
negative n = if eqb n 0 then 0 else if leb n (2 ^ 63) then 2 ^ 64 - n else 2 ^ 63

unfoldable pub requested_log_index : Bytes → ℕ
requested_log_index [] = 0
requested_log_index (c ∷ s) =
    if eqb c b'-'
    then negative (scan_uint s 0)
    else if eqb c b'+'
    then positive (scan_uint s 0)
    else positive (scan_uint (c ∷ s) 0)

-- a new descriptor at the beginning of the file, os.OpenFile(name, os.O_RDONLY, 0644)
abbrev pub reopen : File → File
reopen f = record f { offset = 0 }

-- UnsafeStateRecover: what is written to the pipe, or an error where there is no log
unfoldable pub unsafe_state_recover : Store → ℕ → Option Bytes
unsafe_state_recover s log_index = if s.logging then some (read_all (reopen s.log_file)) else none

-- One round of ListenStateTransfer for what a connection sends; `none` is a call of log.Fatalf.
unfoldable pub transfer_state : Store → Bytes → Option Bytes
transfer_state s stream = elim (split (read_string stream) dash) [
  | _ ∷ index ∷ [] ↦ unsafe_state_recover s (requested_log_index (trim_suffix index (newline ∷ [])))
  | _ ↦ none
]
