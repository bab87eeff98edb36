-- ===== src/Pb/Defs.antt =====
-- What the program takes from the packages journey/pb, golang/protobuf and hashicorp/raft: the
-- fields of a command and of a log entry, and the codec, whose documented behaviour is its laws.
use raft_demo.Base.{ℕ, ◌<◌, ◌^◌, ◌≡◌, ◌≢◌, Bool, true, Option, some, Bytes, length}

-- pb.Command_Operation; an enum of proto3 may hold any number
pub data Operation : Type 0 where
  get set delete : Operation
  other : ℕ → Operation

-- pb.Command
pub record Command : Type 0 where
  pub id : ℕ
  pub ip : Bytes
  pub op : Operation
  pub key : Bytes
  pub value : Bytes

-- raft.Log
pub record Log : Type 0 where
  pub index : ℕ
  pub bytes : Bytes

-- proto.Unmarshal and proto.Marshal. The second part of what `marshal` returns says that there was
-- no error.
pub record Codec : Type 0 where
  pub unmarshal : Bytes → Option Command
  pub marshal : Command → Bytes × Bool
  -- what was marshalled without an error is read back
  pub unmarshal-marshal : (c : Command) → (marshal c).1 ≡ true → unmarshal (marshal c).0 ≡ some c
  -- a command that was read can be marshalled, also with another Id (a uint64)
  pub marshal_of_read :
      (s : Bytes) (c : Command) (id : ℕ)
      → unmarshal s ≡ some c
      → id < 2 ^ 64
      → (marshal (record c { id = id })).1 ≡ true
  -- a field that is not zero takes room
  pub marshal_pos : (c : Command) → c.id ≢ 0 → c.id < 2 ^ 64 → 0 < length (marshal c).0
