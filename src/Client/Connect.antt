-- ===== src/Client/Connect.antt =====
-- Connect and Disconnect of client/seqClient.go and of chatRoom/client/chatClient.go, and writes to
-- the connections.
pub mod Replicas
use raft_demo.Base.{
  ℕ, zero, suc, Bool, true, false, Option, none, some, List, [], ◌∷◌, ◌++◌, Bytes, replicate,
}
use raft_demo.Client.Commands.{Conn}

abbrev pub new_conn : Conn
new_conn = record { sent = []; broken = false }

-- What Connect leaves: client.Svrs, where a missing connection is nil; an error; or the panic at an
-- index out of range.
pub data Connected : Type 0 where
  connected : List (Option Conn) → Connected
  refused : Connected
  panicked : Connected

abbrev pub with_conn : Connected → Connected
with_conn (connected svrs) = connected (some new_conn ∷ svrs)
with_conn refused = refused
with_conn panicked = panicked

-- the loop over client.SvrIps, with the number of places that are left in client.Svrs
unfoldable pub connect_rest : (Bytes → Bool) → ℕ → List Bytes → Connected
connect_rest dials free [] = connected (replicate free none)
connect_rest dials zero (v ∷ vs) = panicked
connect_rest dials (suc free) (v ∷ vs) = elim (dials v) [
  | true ↦ with_conn (connect_rest dials free vs)
  | false ↦ refused
]

-- Connect, for the fields Rep and SvrIps, where `dials` says whether net.Dial takes an address
unfoldable pub connect : (Bytes → Bool) → ℕ → List Bytes → Connected
connect dials rep svr_ips = connect_rest dials rep svr_ips

-- A loop over client.Svrs comes to its end or to an error, with the connections it leaves, or to
-- the panic at a nil connection.
pub data Written : Type 0 where
  done : List (Option Conn) → Written
  failed : List (Option Conn) → Written
  crashed : Written

abbrev pub behind : Option Conn → Written → Written
behind v (done svrs) = done (v ∷ svrs)
behind v (failed svrs) = failed (v ∷ svrs)
behind v crashed = crashed

-- fmt.Fprint(v, message) on every connection, up to the first error
unfoldable pub write_each : List (Option Conn) → Bytes → Written
write_each [] message = done []
write_each (none ∷ vs) message = crashed
write_each (some v ∷ vs) message = elim v.broken [
  | true ↦ failed (some v ∷ vs)
  | false ↦ behind (some (record v { sent = v.sent ++ message })) (write_each vs message)
]
