-- ===== src/Client/Readers.antt =====
-- client/seqClient.go: ReadTCP and ReadTCPParallel, which main does not call.
use raft_demo.Base.{
  ℕ, zero, suc, ◌<◌, ◌≡◌, refl, Option, none, some, List, [], ◌∷◌, ◌++◌, Bytes, length, get_elem?,
  set_elem, ltb, eqb, newline, Lacks, if◌then◌else◌, arith,
}

-- ReadString('\n'): a line with its end, and the rest of the stream; `none` is the error at the end
-- of a stream, which consumes what is left of it
unfoldable pub read_line : Bytes → Option (Bytes × Bytes)
read_line [] = none
read_line (b ∷ s) =
    let longer : Option (Bytes × Bytes) = elim (read_line s) [
      | none ↦ none
      | some (line, rest) ↦ some (b ∷ line, rest)
    ] in
    if eqb b newline then some (b ∷ [], s) else longer

-- ReadTCP, for client.reader, where a missing reader is nil and the others have these bytes to read:
-- the readers behind it, and the line; `none` is a panic, at a nil or at an index out of range
unfoldable pub read_tcp : List (Option Bytes) → ℕ → Option (List (Option Bytes) × Bytes)
read_tcp readers reader_id = elim (get_elem? readers reader_id) [
  | none ↦ none
  | some none ↦ none
  | some (some s) ↦ elim (read_line s) [
    | none ↦ some (set_elem readers reader_id (some []), [])
    | some (line, rest) ↦
        some (set_elem readers reader_id (some rest), (if ltb 1 (length line) then line else []))
  ]
]

-- What ReadTCPParallel comes to: a line, a wait without an end, or the panic of a goroutine.
pub data Parallel : Type 0 where
  answered : Bytes → Parallel
  waits : Parallel
  panicked : Parallel

-- the first line that is sent to the channel, for the order in which the goroutines come to the ends
-- of their reads
unfoldable pub first_line : List (Option Bytes) → List ℕ → Parallel
first_line readers [] = waits
first_line readers (j ∷ js) = elim (get_elem? readers j) [
  | none ↦ first_line readers js
  | some none ↦ panicked
  | some (some s) ↦ elim (read_line s) [
    | none ↦ first_line readers js
    | some (line, rest) ↦ answered line
  ]
]

-- what the goroutines leave in the readers: each has read a line, or to the end
unfoldable pub consume : List (Option Bytes) → List (Option Bytes)
consume [] = []
consume (none ∷ readers) = none ∷ consume readers
consume (some s ∷ readers) = elim (read_line s) [
  | none ↦ some [] ∷ consume readers
  | some (line, rest) ↦ some rest ∷ consume readers
]

-- ReadTCPParallel, and the readers when all goroutines have come to their ends
unfoldable pub read_tcp_parallel : List (Option Bytes) → List ℕ → Parallel × List (Option Bytes)
read_tcp_parallel readers order = (first_line readers order, consume readers)

read_line_eq :
    (line rest : Bytes)
    → Lacks newline line
    → read_line (line ++ newline ∷ rest) ≡ some (line ++ newline ∷ [], rest)
unfolding read_line
read_line_eq [] rest h = ground arith
read_line_eq (b ∷ line) rest (d, h) = ground (arith, read_line_eq line rest h)

-- Replicas that all send a line, with what each sends behind it.
abbrev pub answers : Bytes → List Bytes → List (Option Bytes)
answers line [] = []
answers line (rest ∷ more) = some (line ++ newline ∷ rest) ∷ answers line more

get_elem?-answers :
    (line : Bytes) (rests : List Bytes) (j : ℕ)
    → j < length rests
    → (rest : Bytes) × (get_elem? (answers line rests) j ≡ some (some (line ++ newline ∷ rest)))
get_elem?-answers line [] j h = absurd (omega arith)
get_elem?-answers line (rest ∷ rests) zero h = (rest, refl)
get_elem?-answers line (rest ∷ rests) (suc j) h = get_elem?-answers line rests j (omega arith)

abbrev pub unread : List Bytes → List (Option Bytes)
unread [] = []
unread (rest ∷ rests) = some rest ∷ unread rests

consume-answers :
    (line : Bytes) (rests : List Bytes)
    → Lacks newline line
    → consume (answers line rests) ≡ unread rests
unfolding consume
consume-answers line [] h = refl
consume-answers line (rest ∷ rests) h =
    ground (arith, read_line_eq line rest h, consume-answers line rests h)

-- Whichever goroutine is first, ReadTCPParallel returns the line that all replicas have sent, and no
-- reader has it any more.
pub read_tcp_parallel-answers :
    (line : Bytes) (rests : List Bytes) (j : ℕ) (js : List ℕ)
    → Lacks newline line
    → j < length rests
    → read_tcp_parallel (answers line rests) (j ∷ js)
      ≡ (answered (line ++ newline ∷ []), unread rests)
unfolding read_tcp_parallel first_line
read_tcp_parallel-answers line rests j js h inside =
    let (rest, found) = get_elem?-answers line rests j inside in
    ground (arith, found, read_line_eq line rest h, consume-answers line rests h)
