-- ===== src/Webkvstore/Store.antt =====
-- webkvstore/store/store.go: the replicated map and its methods.
pub mod Laws
pub mod Instance
use raft_demo.Base.{
  Bool, true, false, Option, none, some, List, [], ◌∷◌, ◌++◌, Bytes, codes, ◌==◌, get_or,
  if◌then◌else◌,
}
use raft_demo.Base.Dict
use raft_demo.Base.Dict.{Dict}
use raft_demo.Webkvstore.Interface.{Command, CommandCodec}

-- The operation of an entry of the recovery log (journey.Operation), and its text.
pub data Logged : Type 0 where
  got set_to deleted : Bytes → Logged

-- The fields of Store that the methods use: the map, and the calls of recov.PutFormat, with no
-- time stamps.
pub record Store : Type 0 where
  pub m : Dict Bytes
  pub recov : List Logged

-- What Raft does with a proposal: this node is no leader; Apply ends with an error; or the entry
-- is committed, and this node has applied it.
pub data Raft : Type 0 where
  follower refusing committing : Raft

-- Apply of the state machine; `none` is a panic
unfoldable pub apply_set : Store → Bytes → Bytes → Store
apply_set f key value = record f { m = Dict.put f.m key value }

unfoldable pub apply_delete : Store → Bytes → Store
apply_delete f key = record f { m = Dict.remove f.m key }

abbrev pub set_op : Bytes
set_op = codes "set"

abbrev pub delete_op : Bytes
delete_op = codes "delete"

unfoldable pub dispatch : Store → Command → Option Store
dispatch f c =
    if c.op == set_op
    then some (apply_set f c.key c.value)
    else if c.op == delete_op
    then some (apply_delete f c.key)
    else none

unfoldable pub apply : CommandCodec → Store → Bytes → Option Store
apply json f bytes = elim (json.unmarshal bytes) [ none ↦ none | some c ↦ dispatch f c ]

-- Get
unfoldable pub get : Store → Bytes → Store × Option Bytes
get s key = (
  record s { recov = s.recov ++ got (codes "Get key: " ++ key) ∷ [] },
  some (get_or (Dict.get s.m key) []),
)

-- A method that proposes a command and then logs it. The second part says that there was no error;
-- `none` is a panic of the state machine.
unfoldable pub propose : CommandCodec → Raft → Store → Command → Logged → Option (Store × Bool)
propose json follower s c entry = some (s, false)
propose json refusing s c entry = some (s, false)
propose json committing s c entry = elim (apply json s (json.marshal c)) [
  | none ↦ none
  | some s' ↦ some (record s' { recov = s'.recov ++ entry ∷ [] }, true)
]

-- Set
unfoldable pub set : CommandCodec → Raft → Store → Bytes → Bytes → Option (Store × Bool)
set json raft s key value =
    propose json raft s (record { op = set_op; key = key; value = value })
      (set_to (codes "Set key: " ++ (key ++ (codes ", value: " ++ value))))

-- Delete
unfoldable pub delete : CommandCodec → Raft → Store → Bytes → Option (Store × Bool)
delete json raft s key =
    propose json raft s (record { op = delete_op; key = key; value = [] })
      (deleted (codes "Delete key: " ++ key))
