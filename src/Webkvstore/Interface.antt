-- ===== src/Webkvstore/Interface.antt =====
-- The interface Store of webkvstore/webserver/service.go, with what the comments of its methods
-- promise, and package encoding/json as the two parts of the program use it.
use raft_demo.Base.{◌≡◌, ◌≢◌, ◌⊎◌, Bool, true, Option, some, [], Bytes}

pub record KeyValueStore : Type 1 where
  pub State : Type 0
  -- Get, Set, Delete and Join; a missing value and `false` are errors
  pub get : State → Bytes → State × Option Bytes
  pub set : State → Bytes → Bytes → State × Bool
  pub delete : State → Bytes → State × Bool
  pub join : State → Bytes → Bytes → State × Bool
  -- the value of a key, with the empty text for a missing one
  pub value : State → Bytes → Bytes
  pub get_value : (s : State) (k : Bytes) → (get s k).1 ≡ some (value s k)
  pub get_keeps : (s : State) (k j : Bytes) → value (get s k).0 j ≡ value s j
  pub set_self : (s : State) (k v : Bytes) → (set s k v).1 ≡ true → value (set s k v).0 k ≡ v
  pub set_other :
      (s : State) (k v j : Bytes) → (set s k v).1 ≡ true → k ≢ j → value (set s k v).0 j ≡ value s j
  pub delete_self : (s : State) (k : Bytes) → (delete s k).1 ≡ true → value (delete s k).0 k ≡ []
  -- with an error or without, a key is deleted or not, and the others stay
  pub delete_maybe :
      (s : State) (k : Bytes) → (value (delete s k).0 k ≡ value s k) ⊎ (value (delete s k).0 k ≡ [])
  pub delete_other : (s : State) (k j : Bytes) → k ≢ j → value (delete s k).0 j ≡ value s j

-- type command struct of webkvstore/store/store.go
pub record Command : Type 0 where
  pub op : Bytes
  pub key : Bytes
  pub value : Bytes

-- Marshal and Unmarshal of a command. The texts of JSON are UTF-8; such a command is read back.
pub record CommandCodec : Type 1 where
  pub IsUtf8 : Bytes → Type 0
  pub marshal : Command → Bytes
  pub unmarshal : Bytes → Option Command
  pub unmarshal-marshal :
      (c : Command) → IsUtf8 c.op × IsUtf8 c.key × IsUtf8 c.value → unmarshal (marshal c) ≡ some c
