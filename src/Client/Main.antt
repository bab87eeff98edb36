-- ===== src/Client/Main.antt =====
-- client/seqClient.go: Disconnect, and the loop of main over what is typed.
pub mod Asked
use raft_demo.Base.{
  ℕ, Bool, true, false, Option, none, some, List, [], ◌∷◌, ◌++◌, Bytes, codes, dash, newline,
  length, if◌then◌else◌,
}
use raft_demo.Go.Strings.{has_prefix}
use raft_demo.Go.Strconv.{itoa}
use raft_demo.Client.Commands.{Conn, read_udp}
use raft_demo.Client.Connect.{done, failed, crashed, write_each}

-- Disconnect: whether no connection is nil
unfoldable pub disconnect : List (Option Conn) → Bool
disconnect [] = true
disconnect (none ∷ vs) = false
disconnect (some v ∷ vs) = disconnect vs

-- How main stands, with the connections and the replies that it has printed: at its end, at the next
-- line of the terminal, or waiting for a datagram; or a panic has ended it.
pub data Session : Type 0 where
  exited : List (Option Conn) → List Bytes → Session
  typing : List (Option Conn) → List Bytes → Session
  waiting : List (Option Conn) → List Bytes → Session
  panicked : Session

abbrev pub print : Bytes → Session → Session
print text (exited svrs out) = exited svrs (text ∷ out)
print text (typing svrs out) = typing svrs (text ∷ out)
print text (waiting svrs out) = waiting svrs (text ∷ out)
print text panicked = panicked

-- ReadUDP without its error, which main drops; `none` is a datagram that cannot be read
abbrev pub reply_of : Option Bytes → Bytes
reply_of none = []
reply_of (some datagram) = read_udp datagram

-- the text that Broadcast sends
abbrev pub message_of : ℕ → Bytes → Bytes
message_of udp_port message = itoa udp_port ++ (dash ∷ message)

-- the loop of main over the lines that were typed, each with its newline, and the datagrams that
-- arrive
unfoldable pub main_loop : ℕ → List (Option Conn) → List Bytes → List (Option Bytes) → Session
main_loop port svrs [] datagrams = typing svrs []
main_loop port svrs (text ∷ texts) datagrams =
    if has_prefix text (codes "exit")
    then (if disconnect svrs then exited svrs [] else panicked)
    else elim (write_each svrs (message_of port (text ++ newline ∷ []))) [
      | done svrs' ↦ elim datagrams [
        | [] ↦ waiting svrs' []
        | d ∷ later ↦ print (reply_of d) (main_loop port svrs' texts later)
      ]
      | failed svrs' ↦ main_loop port svrs' texts datagrams
      | crashed ↦ panicked
    ]
