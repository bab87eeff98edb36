-- ===== src/Membership/Raft.antt =====
-- The calls of hashicorp/raft that change the configuration of the cluster, and what it documents
-- of them.
use raft_demo.Base.{◌≡◌, ◌≢◌, ◌↔◌, ◌⊎◌, Bool, true, Option, some, List, [], ◌∷◌, Bytes}

-- raft.Server, without the suffrage
pub record Server : Type 0 where
  pub id : Bytes
  pub address : Bytes

abbrev pub In : Server → List Server → Type 0
In x [] = ⊥
In x (y ∷ ys) = (x ≡ y) ⊎ In x ys

pub record Cluster : Type 1 where
  pub State : Type 0
  -- the servers of the current configuration
  pub Member : State → Server → Type 0
  -- GetConfiguration; `none` is its error
  pub configuration : State → Option (List Server)
  -- RemoveServer, AddVoter and AddNonvoter; the second part says that there was no error
  pub remove_server : State → Bytes → State × Bool
  pub add_voter : State → Bytes → Bytes → State × Bool
  pub add_nonvoter : State → Bytes → Bytes → State × Bool
  pub configuration_members :
      (s : State) (servers : List Server)
      → configuration s ≡ some servers
      → (x : Server) → Member s x ↔ In x servers
  pub removes :
      (s : State) (id : Bytes)
      → (remove_server s id).1 ≡ true
      → (x : Server) → Member (remove_server s id).0 x ↔ (Member s x × (x.id ≢ id))
  -- a server with this ID gets the address; if there is none, it is added
  pub adds_voter :
      (s : State) (id addr : Bytes)
      → (add_voter s id addr).1 ≡ true
      → (x : Server)
      → Member (add_voter s id addr).0 x
        ↔ ((x ≡ record { id = id; address = addr }) ⊎ (Member s x × (x.id ≢ id)))
  pub adds_nonvoter :
      (s : State) (id addr : Bytes)
      → (add_nonvoter s id addr).1 ≡ true
      → (x : Server)
      → Member (add_nonvoter s id addr).0 x
        ↔ ((x ≡ record { id = id; address = addr }) ⊎ (Member s x × (x.id ≢ id)))
