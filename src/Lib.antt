-- ===== src/Lib.antt =====
-- A model of the replicated services of this repository, and the theorems about it.
--
-- Each service is a state machine under hashicorp/raft. A client sends a command to every replica
-- over TCP; the leader proposes it, Raft commits it, and every replica applies the committed
-- entries in their order, logs them to a file and, on the leader, answers the client over UDP. A
-- process of logger/ is a member of the cluster that only logs. recovery/ fetches such a log from a
-- replica and rebuilds the state from it. The parts and their files:
--
-- - Base, Go, Pb, Frames: shared lists, texts and maps; the functions of Go's standard library that
--   the program calls (strings, strconv, encoding/binary, bufio, flag, os.File, and bytes.Buffer
--   with the arrays that its slices share); the commands of journey/pb with the codec as a
--   parameter; the frames of a log, a length and a command each.
-- - Kvstore: kvstore/. Fsm is the state machine of fsm.go (Apply, applySet, applyGet), Compressed
--   its gzip branches, Snapshot its Snapshot, Persist and Restore; Store, Setup, Files and
--   Transfer are store.go (Propose; New; createFile and readAll; UnsafeStateRecover and
--   ListenStateTransfer); Sessions and Server are sessions.go and server.go (Read, Write,
--   Disconnect; HandleRequest, Join, Listen, monitor, validateReq), with the goroutines between
--   the connections and the handler in Server/Pipeline, Exit in Server/Exit and Broadcast in
--   Sessions/Outgoing; Pods is the part of main.go that asks Kubernetes for the leader, Options
--   is init with the environment and the flags, Start is the set-up in main with StartRaft, and
--   Process is main as a whole, up to its end at a signal. Recovery and Transfer/Whole tie it to
--   recovery/.
-- - Replication: the cluster as a step relation, in which entries are committed, and replicas and
--   loggers are handed them in their order, each at its own pace; Submitted is one request that
--   every replica handles.
-- - Node: the calls of Raft that bring a node up, which StartRaft of four programs and Open of
--   webkvstore/ make in the same order.
-- - Recovery: recovery/. State is state.go (InstallReceivedState), State/Cut its run on a log that
--   ends inside a frame, Requester is requester.go.
-- - Logger: logger/. Fsm is fsm.go, Transfer is logger.go (ListenStateTransfer), Setup is main.go
--   (the identifiers and addresses of the loggers), Serialize is the two serializers of fsm.go,
--   Monitor is monitor of logger.go, Start is NewLogger and StartRaft of logger.go and what main
--   does for one logger, Process is init with the environment and the flags and the end of main.
-- - Membership: JoinRaft and ListenRaftJoins of kvstore/store.go, over the calls of Raft that
--   change the configuration, and sendJoinRequest of kvstore/main.go.
-- - ChatRoom: chatRoom/. Queue and Client are client/messageQueue.go and client/chatClient.go, with
--   New, Connect, Broadcast and main in Client/Typed. Server is server/chatServer.go,
--   server/sessions.go and server/fsmServer.go, with StartRaft and main in Server/Start.
-- - Diskstorage: diskstorage/. Fsm is fsm.go over the bytes of a file; Store and Server are the
--   functions that this program shares, line by line, with kvstore/, Start and Process are main.go.
-- - Webkvstore: webkvstore/. Interface is the interface of webserver/service.go to a store,
--   Service its HTTP handlers, with Start and Close in Service/Listening, Store and Snapshot are
--   store/store.go, and Store/Instance is the store as an implementation of the interface. Start
--   is Open of store/store.go with main and join of main.go, and Process main as a whole, with Exit.
-- - Client: client/seqClient.go. Commands is what it sends and what it reads of the replies, Kube
--   how it finds the replicas, Connect how it connects to them, Main the loop of main, Start main
--   as a whole, Readers the reads over TCP.
-- - Examples: tests, and each theorem below at a concrete input.
--
-- A Go function is a function of its state: it returns the new state with its result, `none` or a
-- constructor of its own for an error, a panic or the end of the process. Strings and byte slices
-- are lists of byte values; integers of 64 bits have their wrap-around written out where the code
-- can reach it. A map is a Dict, whose representation is shut. Goroutines that share a state are
-- events or steps in any order (Kvstore/Server, Kvstore/Server/Pipeline, Logger/Process,
-- ChatRoom/Server/Broadcasts). A session reads a whole stream of bytes, as its calls of ReadBytes
-- do.
--
-- The reading loop of recovery/ runs on fuel, one more than the bytes, which is enough since each
-- round reads four bytes. The digits of a number have the number for fuel, since each round divides
-- by ten.
--
-- Parameters, with what their documentation says as laws: the protobuf and the JSON codecs (what
-- was encoded is decoded again), Raft's answer to a proposal, Raft's calls on the configuration and
-- those that bring a node up (which have no laws), whether an address can be dialled or listened
-- at, and the answer of the Kubernetes API, strings.ToLower, json.Marshal of a request, gzip (what
-- was compressed is read back), the pairs that a range over a map visits (every entry), and how
-- much more than it needs a new array of a buffer has.
-- Pb/Sample, Membership/Sample and Examples have samples of them.
--
-- The listeners of New bind their addresses in goroutines; the model takes that as done where New
-- returns.
--
-- Not modelled: how Raft comes to its commits, sockets and their errors but for those of the dials,
-- failing writes to a file but for those to a closed one, the contents of profiles, the delivery of
-- signals, the accept loops, flags that are no strings (webkvstore/ has one), and the scripts.
pub mod Base
pub mod Go
pub mod Pb
pub mod Frames
pub mod Recovery
pub mod Kvstore
pub mod Logger
pub mod Membership
pub mod Node
pub mod ChatRoom
pub mod Diskstorage
pub mod Webkvstore
pub mod Replication
pub mod Client
pub mod Examples
