-- ===== src/Client/Commands.antt =====
-- client/seqClient.go: the messages that go to the replicas.
pub mod Delivery
pub mod Answered
pub mod Unreachable
pub mod Replies
use raft_demo.Base.{
  ℕ, Bool, true, false, List, [], ◌∷◌, ◌++◌, Bytes, dash, newline, take, replicate, length, ◌-◌,
  if◌then◌else◌,
}
use raft_demo.Go.Strconv.{itoa}
use raft_demo.Pb.{Command, Codec}

-- A connection to a replica: the bytes that were sent, and whether a write fails.
pub record Conn : Type 0 where
  pub sent : Bytes
  pub broken : Bool

-- the loop over client.Svrs, which the first error ends; the second part says that there was none
unfoldable pub write_all : List Conn → Bytes → List Conn × Bool
write_all [] message = ([], true)
write_all (v ∷ vs) message = elim v.broken [
  | true ↦ (v ∷ vs, false)
  | false ↦
      let (vs', done) = write_all vs message in (record v { sent = v.sent ++ message } ∷ vs', done)
]

-- Broadcast
unfoldable pub broadcast : ℕ → List Conn → Bytes → List Conn × Bool
broadcast udp_port svrs message = write_all svrs (itoa udp_port ++ (dash ∷ message))

-- BroadcastProtobuf
unfoldable pub broadcast_protobuf : Codec → List Conn → Command → Bytes → List Conn × Bool
broadcast_protobuf pb svrs message client_udp_port =
    let (serialized, done) = pb.marshal (record message { ip = client_udp_port }) in
    if done then write_all svrs (serialized ++ newline ∷ []) else (svrs, false)

-- ReadUDP, for the datagram that arrives: the whole buffer of 128 bytes is the text. What does not
-- fit is cut off, and zeros stand behind a shorter datagram.
unfoldable pub read_udp : Bytes → Bytes
read_udp datagram = take 128 datagram ++ replicate (128 - length datagram) 0
