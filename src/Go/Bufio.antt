-- ===== src/Go/Bufio.antt =====
-- Type bufio.Reader.
pub mod Writers
use raft_demo.Base.{◌≡◌, [], ◌∷◌, ◌++◌, arith, Bytes, eqb, if◌then◌else◌, newline, Lacks}

-- ReadString('\n') on a stream: the bytes up to the first newline, that one included. At the end of
-- the stream it returns what was read, and an error, which the program ignores.
unfoldable pub read_string : Bytes → Bytes
read_string [] = []
read_string (b ∷ s) = if eqb b newline then b ∷ [] else b ∷ read_string s

pub read_string-line :
    (s rest : Bytes) → Lacks newline s → read_string (s ++ newline ∷ rest) ≡ s ++ newline ∷ []
unfolding read_string
read_string-line [] rest h = ground arith
read_string-line (b ∷ s) rest (d, h) = ground (arith, read_string-line s rest h)
