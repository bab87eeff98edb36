-- ===== src/Examples/Chat.antt =====
-- The message queue and the client of chatRoom/.
use raft_demo.Base.{
  none, ◌↔◌, ◌≤◌, ◌+◌, length, ◌≡◌, refl, true, false, some, List, [], ◌∷◌, ◌++◌, Bytes, codes,
  ◌==◌,
}
use raft_demo.ChatRoom.Queue.{MessageQueue, blocked, contains, push_pop}
use raft_demo.ChatRoom.Queue.Faults.{push_pop-blocked}
use raft_demo.ChatRoom.Client.Printed.{fresh}
use raft_demo.Go.Strings.{join}
use raft_demo.Go.Strconv.{itoa}
use raft_demo.Pb.{Log}
use raft_demo.ChatRoom.Server.Stopped.{apply-shutdown}
use raft_demo.ChatRoom.Server.{
  apply, shutdown, disconnect_all, disconnect, Server, new_session, broadcast_text,
}
use raft_demo.ChatRoom.Server.Broadcasts.{
  Event, commit, join_event, run, texts, joined, extend, run-extend,
}

abbrev queue : MessageQueue
queue = record { size = 2; entries = codes "a" ∷ codes "b" ∷ []; sync = false; locked = false }

abbrev received : List Bytes
received = codes "c" ∷ codes "b" ∷ codes "c" ∷ codes "a" ∷ []

fresh_test : fresh queue.entries received ≡ codes "c" ∷ codes "a" ∷ []
unfolding fresh contains ◌==◌
fresh_test = refl

abbrev synchronised : MessageQueue
synchronised = record queue { sync = true }

push_pop-blocked_example :
    (push_pop synchronised (codes "c") ≡ blocked)
    ↔ ((2 ≤ length synchronised.entries + 1) × (contains synchronised.entries (codes "c") ≡ false))
push_pop-blocked_example = push_pop-blocked synchronised (codes "c") refl refl

abbrev room : Server
room = record { clients = new_session ∷ []; proposed = []; closed = false }

abbrev events : List Event
events =
    commit (record { index = 3; bytes = codes "hi" })
    ∷ join_event
    ∷ commit (record { index = 4; bytes = codes "hi" })
    ∷ []

run-extend_example :
    run room events
    ≡ some (record room { clients = extend room.clients (texts events) ++ joined events })
run-extend_example = run-extend room events (refl, tt)

texts_test : texts events ≡ codes "3-hi" ∷ codes "4-hi" ∷ []
unfolding texts broadcast_text join itoa
texts_test = refl

abbrev greeting : Log
greeting = record { index = 3; bytes = codes "hi" }

abbrev closed_room : Server
closed_room = record room { clients = record { written = []; closed = true } ∷ []; closed = true }

room-shutdown : shutdown room ≡ some closed_room
unfolding shutdown disconnect_all disconnect
room-shutdown = refl

apply-shutdown_example : apply closed_room greeting ≡ none
apply-shutdown_example = apply-shutdown room closed_room greeting (λ e. cc) room-shutdown
