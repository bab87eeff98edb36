-- ===== src/ChatRoom/Client/Typed.antt =====
-- chatRoom/client/chatClient.go: New, Connect, Broadcast and Read, and main with its loop over what
-- is typed.
pub mod Delivered
use raft_demo.Base.{
  ℕ, Bool, true, false, ◌&&◌, Option, none, some, List, [], ◌∷◌, ◌++◌, Bytes, codes, newline,
  if◌then◌else◌, ◌==◌,
}
use raft_demo.Go.Strings.{contains}
use raft_demo.Client.Commands.{Conn}
use raft_demo.Client.Connect.{
  Connected, connected, refused, panicked, Written, done, failed, crashed, write_each,
}
use raft_demo.ChatRoom.Queue.{MessageQueue, new_mq}

-- The fields of the configuration, as they stand in the file.
pub record Config : Type 0 where
  pub rep : ℕ
  pub svr_ips : List Bytes
  pub mqueue_size : ℕ

-- New, for what the file decodes to: the queue; `none` is an error
unfoldable pub new : Option Config → Option (Config × MessageQueue)
new none = none
new (some info) = some (info, new_mq info.mqueue_size false)

-- Connect
unfoldable pub connect : (Bytes → Bool) → ℕ → List Bytes → Connected
connect dials rep svr_ips = raft_demo.Client.Connect.connect dials rep svr_ips

-- Broadcast
unfoldable pub broadcast : List (Option Conn) → Bytes → Written
broadcast svrs message = write_each svrs message

-- Read, over what a replica sends
unfoldable pub read : Bytes → List Bytes
read stream = raft_demo.ChatRoom.Server.read stream

-- Disconnect: whether no connection is nil
unfoldable pub disconnect : List (Option Conn) → Bool
disconnect [] = true
disconnect (none ∷ vs) = false
disconnect (some v ∷ vs) = disconnect vs

-- How main stands: at its end, at the next line of the terminal, or at a panic or an error of New or
-- of Connect.
pub data Session : Type 0 where
  exited : List (Option Conn) → Session
  typing : List (Option Conn) → Session
  ended : Session

-- the loop of main over the lines that were typed, each with its newline
unfoldable pub main_loop : List (Option Conn) → List Bytes → Session
main_loop svrs [] = typing svrs
main_loop svrs (text ∷ texts) =
    if contains text (codes "exit")
    then (if disconnect svrs then exited svrs else ended)
    else elim (broadcast svrs (text ++ newline ∷ [])) [
      | done svrs' ↦ main_loop svrs' texts
      | failed svrs' ↦ main_loop svrs' texts
      | crashed ↦ ended
    ]

abbrev pub begin : Connected → List Bytes → Session
begin (connected svrs) texts = main_loop svrs texts
begin refused texts = ended
begin panicked texts = ended

-- main, with the name of the configuration file
unfoldable pub main : Bytes → Option Config → (Bytes → Bool) → List Bytes → Session
main filename decoded dials texts = if filename == [] then ended else elim (new decoded) [
  | none ↦ ended
  | some info ↦ begin (connect dials info.0.rep info.0.svr_ips) texts
]
