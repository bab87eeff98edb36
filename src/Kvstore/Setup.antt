-- ===== src/Kvstore/Setup.antt =====
-- New of kvstore/store.go: the store of a replica that starts.
pub mod Keys
use raft_demo.Base.{
  ℕ, zero, suc, true, false, Option, none, some, List, [], ◌∷◌, Bytes, codes, replicate,
  if◌then◌else◌, ◌==◌, get_or, Bool, not,
}
use raft_demo.Base.Dict
use raft_demo.Base.Dict.{Dict}
use raft_demo.Go.Files.{File}
use raft_demo.Go.Strconv.{itoa}
use raft_demo.Node.{◌>>=◌}
use raft_demo.Kvstore.Files.{Stat, create_file}
use raft_demo.Kvstore.Fsm.{Store}

abbrev pub init_value : Bytes
init_value = replicate 1024 b'!'

-- the loop over i from 0 on, for the first n keys
unfoldable pub pre_initialize {ℓ} : {V : Type ℓ} → ℕ → V → Dict V → Dict V
pre_initialize zero value m = m
pre_initialize (suc n) value m = Dict.put (pre_initialize n value m) (itoa n) value

-- A goroutine that listens at an address, if one is given, where `bound` says whether net.Listen takes
-- it; `none` is its call of log.Fatalf.
unfoldable pub listen_at : (bound : Bytes → Bool) → Bytes → Option (Option Bytes)
listen_at bound addr =
    if addr == [] then some none else if bound addr then some (some addr) else none

-- What New opens: the store, and where ListenRaftJoins and ListenStateTransfer listen.
pub record Opened : Type 0 where
  pub store : Store
  pub joins_at : Option Bytes
  pub transfers_at : Option Bytes

-- New behind the listeners, with what os.Stat says of the log file, and n for the constant numInitKeys, which is
-- 1000000; `none` is a call of log.Fatalln
unfoldable pub new_store : (logfolder : Bytes) → Stat → ℕ → Option Store
new_store logfolder stat n =
    let m = pre_initialize n init_value Dict.empty in
    if logfolder == []
    then some (record { m = m; logging = false; log_file = record { content = []; offset = 0 } })
    else elim (create_file stat) [
      | none ↦ none
      | some fd ↦ some (record { m = m; logging = true; log_file = fd })
    ]

-- New. What the listeners do with a connection is in Membership and in Kvstore/Transfer; they bind
-- their addresses in goroutines, which is taken here as done where New returns.
unfoldable pub new :
    (bound : Bytes → Bool)
    → (join_handler_addr recov_handler_addr logfolder : Bytes) → Stat
    → ℕ
    → Option Opened
new bound join_handler_addr recov_handler_addr logfolder stat n = do
  joins_at ← listen_at bound join_handler_addr
  transfers_at ← listen_at bound recov_handler_addr
  s ← new_store logfolder stat n
  some (record { store = s; joins_at = joins_at; transfers_at = transfers_at })
