-- ===== src/Client/Start.antt =====
-- client/seqClient.go: main from its flags to its loop, and the socket for the replies.
pub mod Reached
pub mod Unanswered
use raft_demo.Base.{
  ℕ, Bool, true, false, Option, none, some, List, [], ◌∷◌, Bytes, codes, get_or, ◌==◌,
  if◌then◌else◌,
}
use raft_demo.Base.Dict
use raft_demo.Go.Flags.{assign, parse}
use raft_demo.Client.Commands.{Conn}
use raft_demo.Client.Connect.{Connected, connected, refused, connect}
use raft_demo.Client.Kube.{Env, Info, new}
use raft_demo.Client.Main.{Session, disconnect, main_loop}

-- What the system answers: whether net.Dial and net.ListenUDP take an address, the environment and
-- the pods as checkKubernetesEnv finds them, MY_POD_IP, what the toml file of a name
-- decodes to, the lines that are typed, and the datagrams that arrive.
pub record World : Type 0 where
  pub dials : Bytes → Bool
  pub listens_udp : Bytes → ℕ → Bool
  pub env : Option Env
  pub pod_ip : Bytes
  pub decoded : Bytes → Option Info
  pub texts : List Bytes
  pub datagrams : List (Option Bytes)

-- StartUDP; `false` is an error
unfoldable pub start_udp : World → Info → Bool
start_udp world client = world.listens_udp client.local_ip client.udp_port

-- Shutdown: whether no connection is nil
unfoldable pub shutdown : List (Option Conn) → Bool
shutdown svrs = disconnect svrs

-- How the program ends or stands: a call of log.Fatal, a panic in Connect, or its loop.
pub data Run : Type 0 where
  fatal : Run
  crashed : Run
  looping : Session → Run

-- the flag of init
abbrev pub client_flags : List (Bytes × Bytes)
client_flags = (codes "config", codes "client-config.toml") ∷ []

-- main behind New
unfoldable pub serve : World → Info → Run
serve world cluster = elim (connect world.dials cluster.rep cluster.svr_ips) [
  | refused ↦ fatal
  | connected svrs ↦
      if start_udp world cluster
      then looping (main_loop cluster.udp_port svrs world.texts world.datagrams)
      else fatal
  | _ ↦ crashed
]

-- main, for the arguments of the command
unfoldable pub main : World → List Bytes → Run
main world args = elim (parse (assign Dict.empty client_flags) args) [
  | none ↦ fatal
  | some flags ↦
      let config = get_or (Dict.get flags (codes "config")) [] in
      if config == [] then fatal else elim (new world.env world.pod_ip (world.decoded config)) [
        | none ↦ fatal
        | some cluster ↦ serve world cluster
      ]
]
