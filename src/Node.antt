-- ===== src/Node.antt =====
-- The calls of hashicorp/raft that bring a node up, in the order that StartRaft of kvstore/store.go,
-- diskstorage/storage.go, chatRoom/server/chatServer.go and logger/logger.go, and Open of
-- webkvstore/store/store.go make them.
pub mod Started
use raft_demo.Base.{
  ◌≡◌, refl, ℕ, Bool, true, false, Option, none, some, List, [], ◌∷◌, Bytes, if◌then◌else◌,
}
use raft_demo.Membership.{Server}

infixl 5 ◌>>=◌
abbrev pub ◌>>=◌ {ℓ κ} : {A : Type ℓ} {B : Type κ} → Option A → (A → Option B) → Option B
none >>= f = none
some a >>= f = f a

-- a chain that comes to its end has come through its first step
pub >>=-some {ℓ κ} :
    {A : Type ℓ} {B : Type κ} (x : Option A) (f : A → Option B) (b : B)
    → (x >>= f) ≡ some b
    → (a : A) × (x ≡ some a) × (f a ≡ some b)
>>=-some none f b h = absurd (cc)
>>=-some (some a) f b h = (a, refl, h)

-- a chain whose later steps fail fails
pub >>=-none {ℓ κ} :
    {A : Type ℓ} {B : Type κ} (x : Option A) (f : A → Option B)
    → ((a : A) → f a ≡ none)
    → (x >>= f) ≡ none
>>=-none none f h = refl
>>=-none (some a) f h = h a

-- the end of the process, unless the test holds
abbrev pub guard : Bool → Option (Unit {0})
guard true = some tt
guard false = none

-- raft.Config, in the fields that the programs set; the interval is in seconds
pub record Config : Type 0 where
  pub local_id : Bytes
  pub snapshot_interval : ℕ
  pub snapshot_threshold : ℕ
  pub log_level : Bytes

-- Where the log and the stable store are: in memory, or in a file of raft-boltdb.
pub data Stores : Type 0 where
  in_memory : Stores
  in_file : Bytes → Stores

-- The library; a missing value is an error.
pub record Library : Type 1 where
  pub Address : Type 0
  pub Transport : Type 0
  pub Snapshots : Type 0
  pub Node : Type 0
  pub resolve_tcp_addr : Bytes → Option Address
  pub new_tcp_transport : Bytes → Address → Option Transport
  pub local_addr : Transport → Bytes
  pub new_file_snapshot_store : (dir : Bytes) (retain : ℕ) → Option Snapshots
  pub default_config : Config
  pub new_raft : Config → Stores → Snapshots → Transport → Option Node
  pub bootstrap_cluster : Node → List Server → Node

module _ (lib : Library) where
  open lib use {
    Node, resolve_tcp_addr, new_tcp_transport, local_addr, new_file_snapshot_store, new_raft,
    bootstrap_cluster,
  }

  -- What the programs share; `stores` is asked for behind the snapshots.
  unfoldable pub bring_up : Config → (raft_addr dir : Bytes) → Option Stores → Bool → Option Node
  bring_up config raft_addr dir stores enable_single = do
    addr ← resolve_tcp_addr raft_addr
    transport ← new_tcp_transport raft_addr addr
    snapshots ← new_file_snapshot_store dir 2
    kept ← stores
    ra ← new_raft config kept snapshots transport
    some (
        if enable_single
        then bootstrap_cluster ra
            (record { id = config.local_id; address = local_addr transport } ∷ [])
        else ra)
