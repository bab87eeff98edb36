-- ===== src/Logger/Serialize.antt =====
-- logger/fsm.go: serializeCommandInProtobuf and serializeCommandInJSON, which read a request that is
-- a text with dashes.
pub mod Texts
use raft_demo.Base.{
  ℕ, Bool, true, false, Option, none, some, List, [], ◌∷◌, ◌++◌, Bytes, codes, dash, newline, ◌==◌,
  if◌then◌else◌,
}
use raft_demo.Go.Strings.{split, join, trim_suffix}
use raft_demo.Pb.{Operation, get, set, delete, Command, Codec}

-- What a call comes to: bytes, an error, or the panic at an index out of range.
pub data Serialized : Type 0 where
  serialized : Bytes → Serialized
  failed : Serialized
  panicked : Serialized

-- the end of the two functions, for what their codec returns
abbrev pub or_failed : Bytes × Bool → Serialized
or_failed (bytes, done) = if done then serialized bytes else failed

-- the parts of a request, as both read them; `to_lower` is strings.ToLower
unfoldable pub parts_of : (Bytes → Bytes) → Bytes → List Bytes
parts_of to_lower requistion = split (trim_suffix (to_lower requistion) (newline ∷ [])) dash

-- the switch of serializeCommandInProtobuf over content[1]
abbrev pub command_of : ℕ → Bytes → Bytes → Bytes → List Bytes → Option (Option Command)
command_of index ip op key more =
    if op == codes "set"
    then elim more [
      | [] ↦ none
      | value ∷ _ ↦ some (some (record { id = index; ip = ip; op = set; key = key; value = value }))
    ]
    else if op == codes "get"
    then some (some (record { id = index; ip = ip; op = get; key = key; value = [] }))
    else if op == codes "delete"
    then some (some (record { id = index; ip = ip; op = delete; key = key; value = [] }))
    else some none

abbrev pub marshalled : Codec → Option (Option Command) → Serialized
marshalled pb none = panicked
marshalled pb (some none) = failed
marshalled pb (some (some cmd)) = or_failed (pb.marshal cmd)

-- serializeCommandInProtobuf
unfoldable pub serialize_in_protobuf : Codec → (Bytes → Bytes) → Bytes → ℕ → Serialized
serialize_in_protobuf pb to_lower requistion index = elim (parts_of to_lower requistion) [
  | ip ∷ op ∷ key ∷ more ↦ marshalled pb (command_of index ip op key more)
  | _ ↦ panicked
]

-- journey.Command, and json.Marshal of it, with `false` for an error
pub record JsonCommand : Type 0 where
  pub id : ℕ
  pub ip : Bytes
  pub op : Operation
  pub comment : Bytes

-- the switch of serializeCommandInJSON over content[1]
abbrev pub json_of : ℕ → Bytes → Bytes → Bytes → List Bytes → Option (Option JsonCommand)
json_of index ip op cmt more =
    if op == codes "set"
    then elim more [
      | [] ↦ none
      | value ∷ _ ↦ some (
          some (record {
            id = index;
            ip = ip;
            op = set;
            comment = join (cmt ∷ value ∷ []) (dash ∷ []);
          }))
    ]
    else if op == codes "get"
    then some (some (record { id = index; ip = ip; op = get; comment = cmt }))
    else if op == codes "delete"
    then some (some (record { id = index; ip = ip; op = delete; comment = cmt }))
    else some none

abbrev pub json_marshalled : (JsonCommand → Bytes × Bool) → Option (Option JsonCommand) → Serialized
json_marshalled marshal none = panicked
json_marshalled marshal (some none) = failed
json_marshalled marshal (some (some cmd)) = or_failed (marshal cmd)

-- serializeCommandInJSON
unfoldable pub serialize_in_json :
    (JsonCommand → Bytes × Bool) → (Bytes → Bytes) → Bytes → ℕ → Serialized
serialize_in_json marshal to_lower requistion index = elim (parts_of to_lower requistion) [
  | ip ∷ op ∷ cmt ∷ more ↦ json_marshalled marshal (json_of index ip op cmt more)
  | _ ↦ panicked
]
