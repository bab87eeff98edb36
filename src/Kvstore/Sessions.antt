-- ===== src/Kvstore/Sessions.antt =====
-- kvstore/sessions.go: the requests that the server reads from the connection of a client.
pub mod Framing
pub mod Outgoing
use raft_demo.Base.{ℕ, Bool, List, [], ◌∷◌, ◌++◌, Bytes, length, ltb, eqb, if◌then◌else◌, newline}
use raft_demo.Go.Strings.{split}

-- Request
pub record Request : Type 0 where
  pub command : Bytes
  pub ip : Bytes

-- What the calls of ReadBytes('\n') return without an error, up to the end of the stream: the
-- lines with their ends. `line` is what was read of the next line; at the end of the stream it is
-- returned with io.EOF.
unfoldable pub lines : Bytes → Bytes → List Bytes
lines line [] = []
lines line (b ∷ s) =
    let ended = (line ++ b ∷ []) ∷ lines [] s in
    let longer = lines (line ++ b ∷ []) s in if eqb b newline then ended else longer

-- strings.Split(ip, ":")[0]
abbrev pub head_or_empty : List Bytes → Bytes
head_or_empty [] = []
head_or_empty (p ∷ ps) = p

unfoldable pub host : Bytes → Bytes
host address = head_or_empty (split address b':')

-- the lines that are longer than their end, as requests
unfoldable pub to_requests : Bytes → List Bytes → List Request
to_requests address [] = []
to_requests address (line ∷ ls) =
    let later = to_requests address ls in
    if ltb 1 (length line) then record { command = line; ip = host address } ∷ later else later

-- Read, for a client at an address that sends the stream and then closes the connection
unfoldable pub read : Bytes → Bytes → List Request
read address stream = to_requests address (lines [] stream)
