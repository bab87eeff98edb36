-- ===== src/Kvstore/Sessions/Framing.antt =====
-- What arrives of the messages that a client writes, each with a newline behind it.
use raft_demo.Base.{
  ◌≡◌, ◌≢◌, refl, List, [], ◌∷◌, ◌++◌, append_assoc, Bytes, length, eqb, if◌then◌else◌, newline,
  Lacks, arith, length-append, All,
}
use raft_demo.Kvstore.Sessions.{Request, lines, host, to_requests, read}

pub lines-Lacks :
    (line s rest : Bytes)
    → Lacks newline s
    → lines line (s ++ newline ∷ rest) ≡ (line ++ (s ++ newline ∷ [])) ∷ lines [] rest
unfolding lines
lines-Lacks line [] rest h = ground arith
lines-Lacks line (b ∷ s) rest (d, h) =
    ground
      (arith, lines-Lacks (line ++ b ∷ []) s rest h, append_assoc line (b ∷ []) (s ++ newline ∷ []))

-- Whatever else a client sends, the bytes up to the first newline are one request, which is dropped
-- where they are none, and what follows the newline is read in the same way, as if it were a stream
-- of its own.
pub read-line :
    (address s rest : Bytes)
    → Lacks newline s
    → read address (s ++ newline ∷ rest) ≡ (
        if eqb (length s) 0
        then read address rest
        else record { command = s ++ newline ∷ []; ip = host address } ∷ read address rest)
unfolding read to_requests
read-line address s rest h = ground (arith, lines-Lacks [] s rest h, length-append s (newline ∷ []))

-- the stream of a client that sends messages one after the other
unfoldable pub framed : List Bytes → Bytes
framed [] = []
framed (m ∷ ms) = m ++ newline ∷ framed ms

-- the requests that hold one message each
unfoldable pub requests_of : Bytes → List Bytes → List Request
requests_of address [] = []
requests_of address (m ∷ ms) =
    record { command = m ++ newline ∷ []; ip = host address } ∷ requests_of address ms

-- A message that arrives whole: it is not empty and has no newline.
pub record IsSendable (m : Bytes) : Type 0 where
  pub not_empty : m ≢ []
  pub one_line : Lacks newline m

-- The messages of a client, none of them empty and none with a newline, arrive as one request each
-- and in their order.
pub read-framed :
    (address : Bytes) (ms : List Bytes)
    → All IsSendable ms
    → read address (framed ms) ≡ requests_of address ms
unfolding framed requests_of
read-framed address [] h = unfold read lines to_requests in refl
read-framed address (m ∷ ms) (h, hs) =
    ground
      (arith, read-line address m (framed ms) h.one_line, read-framed address ms hs, h.not_empty)
