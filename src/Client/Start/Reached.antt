-- ===== src/Client/Start/Reached.antt =====
-- The program of the client from the command line to the requests that the replicas read.
use raft_demo.Base.{
  ◌≤◌, ◌≡◌, ap, true, some, List, [], Bytes, codes, newline, length, Lacks, All, ◌==◌,
}
use raft_demo.Base.Dict
use raft_demo.Base.Dict.{get-put_self}
use raft_demo.Go.Flags.{parse}
use raft_demo.Client.Kube.{from_kube, new}
use raft_demo.Client.Connect.Replicas.{AllDial, told, connect-told}
use raft_demo.Client.Main.Asked.{
  map_typed, until_exit, has_exit, messages_of, replies_of, standing, main_loop-read,
}
use raft_demo.Kvstore.Sessions.{read}
use raft_demo.Kvstore.Sessions.Framing.{requests_of}
use raft_demo.Client.Start.{World, looping, start_udp, serve, main}

-- A client that runs without arguments in a pod, and is told the addresses of replicas that all take
-- its connection, sends every replica the same bytes. A replica reads of them one request for each
-- line that is typed in front of an "exit", in their order, with the port 15000 in front, if enough
-- datagrams arrive. The client prints one reply for each of the lines, and does not panic.
pub main-requests_of :
    (world : World) (ips ls : List Bytes) (address : Bytes)
    → world.env ≡ some (from_kube ips)
    → AllDial world.dials ips
    → world.listens_udp world.pod_ip 15000 ≡ true
    → world.texts ≡ map_typed ls
    → All (Lacks newline) ls
    → length (until_exit ls) ≤ length world.datagrams
    → (stream : Bytes) × (main world []
        ≡ looping (
            standing
              (has_exit ls)
              (told (length ips) stream)
              (replies_of (until_exit ls) world.datagrams)))
      × (read address stream ≡ requests_of address (messages_of 15000 (until_exit ls)))
unfolding main serve start_udp new parse ◌==◌
main-requests_of world ips ls address kube dialled bound typed lines enough =
    let (stream, stands, asked) =
      main_loop-read (length ips) 15000 address ls world.datagrams lines enough in
    (
      stream,
      rw
          (
            get-put_self Dict.empty (codes "config") (codes "client-config.toml"),
            kube,
            serve,
            connect-told world.dials ips dialled,
            bound,
            typed,
          )
          (ap looping stands),
      asked,
    )
