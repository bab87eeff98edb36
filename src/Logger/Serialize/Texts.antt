-- ===== src/Logger/Serialize/Texts.antt =====
-- The texts that the serializers read.
use raft_demo.Base.{
  ℕ, ◌≡◌, refl, ap, ◌∙◌, true, some, Bytes, List, [], ◌∷◌, ◌++◌, codes, dash, newline, Lacks, arith,
  ◌==◌,
}
use raft_demo.Go.Strings.{split}
use raft_demo.Go.Strings.Laws.{split-append, split-Lacks, trim_suffix-concat}
use raft_demo.Pb.{get, set, delete, Command, Codec}
use raft_demo.Logger.Serialize.{serialized, parts_of, serialize_in_protobuf}

-- What a request asks for.
pub data Ask : Type 0 where
  setting : Bytes → Bytes → Ask
  getting : Bytes → Ask
  deleting : Bytes → Ask

-- its text behind the client's address and a dash
abbrev pub tail_of : Ask → Bytes
tail_of (setting key value) = codes "set" ++ (dash ∷ (key ++ (dash ∷ value)))
tail_of (getting key) = codes "get" ++ (dash ∷ key)
tail_of (deleting key) = codes "delete" ++ (dash ∷ key)

abbrev pub text_of : Bytes → Ask → Bytes
text_of ip ask = ip ++ (dash ∷ tail_of ask)

-- the command that it stands for
abbrev pub asked : ℕ → Bytes → Ask → Command
asked index ip (setting key value) = record {
  id = index;
  ip = ip;
  op = set;
  key = key;
  value = value;
}
asked index ip (getting key) = record { id = index; ip = ip; op = get; key = key; value = [] }
asked index ip (deleting key) = record { id = index; ip = ip; op = delete; key = key; value = [] }

-- The fields have no dash.
abbrev pub IsPlain : Ask → Type 0
IsPlain (setting key value) = Lacks dash key × Lacks dash value
IsPlain (getting key) = Lacks dash key
IsPlain (deleting key) = Lacks dash key

abbrev pub tail_parts : Ask → List Bytes
tail_parts (setting key value) = codes "set" ∷ key ∷ value ∷ []
tail_parts (getting key) = codes "get" ∷ key ∷ []
tail_parts (deleting key) = codes "delete" ∷ key ∷ []

pub split-tail_of : (ask : Ask) → IsPlain ask → split (tail_of ask) dash ≡ tail_parts ask
split-tail_of (setting key value) (k, v) =
    split-append (codes "set") (key ++ (dash ∷ value)) dash (omega arith)
    ∙ ap (λ (l : List Bytes). codes "set" ∷ l)
        (split-append key value dash k
          ∙ ap (λ (l : List Bytes). key ∷ l) (split-Lacks value dash v))
split-tail_of (getting key) k =
    split-append (codes "get") key dash (omega arith)
    ∙ ap (λ (l : List Bytes). codes "get" ∷ l) (split-Lacks key dash k)
split-tail_of (deleting key) k =
    split-append (codes "delete") key dash (omega arith)
    ∙ ap (λ (l : List Bytes). codes "delete" ∷ l) (split-Lacks key dash k)

-- once the parts are there
serialize-tail_parts :
    (to_lower : Bytes → Bytes) (pb : Codec) (index : ℕ) (text ip : Bytes) (ask : Ask)
    → parts_of to_lower text ≡ ip ∷ tail_parts ask
    → (pb.marshal (asked index ip ask)).1 ≡ true
    → serialize_in_protobuf pb to_lower text index ≡ serialized (pb.marshal (asked index ip ask)).0
unfolding serialize_in_protobuf ◌==◌
serialize-tail_parts to_lower pb index text ip (setting key value) e done =
    rw (serialize_in_protobuf, e, done) refl
serialize-tail_parts to_lower pb index text ip (getting key) e done =
    rw (serialize_in_protobuf, e, done) refl
serialize-tail_parts to_lower pb index text ip (deleting key) e done =
    rw (serialize_in_protobuf, e, done) refl

module _ (to_lower : Bytes → Bytes) (ip : Bytes) (ask : Ask) where
  parts_of-text_of :
      to_lower (text_of ip ask ++ newline ∷ []) ≡ text_of ip ask ++ newline ∷ []
      → Lacks dash ip
      → IsPlain ask
      → parts_of to_lower (text_of ip ask ++ newline ∷ []) ≡ ip ∷ tail_parts ask
  unfolding parts_of
  parts_of-text_of lower no_dash plain =
      rw (lower, trim_suffix-concat (text_of ip ask) newline)
        (split-append ip (tail_of ask) dash no_dash
          ∙ ap (λ (l : List Bytes). ip ∷ l) (split-tail_of ask plain))

  -- A request of a client's address and of a SET, a GET or a DELETE, which strings.ToLower leaves as
  -- it is and whose fields have no dash, is serialized to bytes that are unmarshalled to the command
  -- that it stands for, with the index for its Id, if that command can be marshalled.
  pub serialize_in_protobuf-text_of :
      (pb : Codec) (index : ℕ)
      → to_lower (text_of ip ask ++ newline ∷ []) ≡ text_of ip ask ++ newline ∷ []
      → Lacks dash ip
      → IsPlain ask
      → (pb.marshal (asked index ip ask)).1 ≡ true
      → (bytes : Bytes) × (serialize_in_protobuf pb to_lower (text_of ip ask ++ newline ∷ []) index
          ≡ serialized bytes)
        × (pb.unmarshal bytes ≡ some (asked index ip ask))
  serialize_in_protobuf-text_of pb index lower no_dash plain done = (
    (pb.marshal (asked index ip ask)).0,
    serialize-tail_parts to_lower pb index (text_of ip ask ++ newline ∷ []) ip ask
        (parts_of-text_of lower no_dash plain) done,
    pb.unmarshal-marshal (asked index ip ask) done,
  )
