-- ===== src/Kvstore/Snapshot.antt =====
-- kvstore/fsm.go: Snapshot, Persist and Restore. The JSON of a map is a parameter.
pub mod Restored
use raft_demo.Base.{
  ℕ, zero, suc, ◌≡◌, ◌≢◌, Bool, true, false, Option, none, some, Bytes, List, [], ◌∷◌, ◌++◌, length,
  set_elem, ◌==◌, if◌then◌else◌,
}
use raft_demo.Base.Dict
use raft_demo.Base.Dict.{Dict}
use raft_demo.Go.Files.{File}
use raft_demo.Pb.{Log, Codec}
use raft_demo.Kvstore.Fsm.{Store, panicked, apply}

-- encoding/json for map[string][]byte. A map whose keys are all text (valid UTF-8) is decoded to a
-- map with the same entries.
pub record Json : Type 0 where
  pub marshal : Dict Bytes → Option Bytes
  pub decode : Bytes → Option (Dict Bytes)
  pub is_text : Bytes → Bool
  pub decode-marshal :
      (m : Dict Bytes) (b : Bytes)
      → ((k : Bytes) → Dict.get m k ≢ none → is_text k ≡ true)
      → marshal m ≡ some b
      → (o : Dict Bytes) × (decode b ≡ some o) × ((k : Bytes) → Dict.get o k ≡ Dict.get m k)

-- raft.SnapshotSink: whether Write and Close have no error.
pub record Sink : Type 0 where
  pub writes : Bool
  pub closes : Bool

-- What became of a sink.
pub data Persisted : Type 0 where
  closed : Bytes → Persisted
  canceled : Persisted

-- the value that the last pair with a key has
abbrev pub last_of : Bytes → List (Bytes × Bytes) → Option Bytes
last_of k [] = none
last_of k ((j, v) ∷ es) = elim (last_of k es) [
  | some w ↦ some w
  | none ↦ (if j == k then some v else none)
]

-- The pairs that a range over a map visits, in whatever order: every entry, and no others.
pub record Range : Type 0 where
  pub entries : Dict Bytes → List (Bytes × Bytes)
  pub entries-get : (m : Dict Bytes) (k : Bytes) → last_of k (entries m) ≡ Dict.get m k

-- the loop of Snapshot over the pairs
unfoldable pub clone : List (Bytes × Bytes) → Dict Bytes → Dict Bytes
clone [] o = o
clone ((k, v) ∷ es) o = clone es (Dict.put o k v)

-- A replica with the maps that its process has made. A map in Go is a reference: that of the state
-- machine is one of these, at an index, and so is that of a snapshot.
pub record Live : Type 0 where
  pub maps : List (Dict Bytes)
  pub m : ℕ
  pub logging : Bool
  pub log_file : File

abbrev pub map_at : List (Dict Bytes) → ℕ → Dict Bytes
map_at [] i = Dict.empty
map_at (o ∷ maps) zero = o
map_at (o ∷ maps) (suc i) = map_at maps i

-- what the state machine sees
abbrev pub store_of : Live → Store
store_of s = record { m = map_at s.maps s.m; logging = s.logging; log_file = s.log_file }

-- Apply, which writes to the map of the state machine where it is, for the entries that Raft hands
-- over; `none` is a panic, which ends the process
unfoldable pub apply_live : Codec → Live → Log → Option Live
apply_live pb s l =
    let (f, outcome) = apply pb (store_of s) l in
    elim outcome [
      | panicked ↦ none
      | _ ↦ some (record s { maps = set_elem s.maps s.m f.m; log_file = f.log_file })
    ]

unfoldable pub run_live : Codec → Live → List Log → Option Live
run_live pb s [] = some s
run_live pb s (l ∷ ls) = elim (apply_live pb s l) [ none ↦ none | some t ↦ run_live pb t ls ]

-- Snapshot: a new map, into which the entries are copied; the second part is its reference
unfoldable pub snapshot : Range → Live → Live × ℕ
snapshot range s = (
  record s { maps = s.maps ++ clone (range.entries (map_at s.maps s.m)) Dict.empty ∷ [] },
  length s.maps,
)

-- Persist, over what the map of the snapshot holds by then
unfoldable pub persist : Json → Dict Bytes → Sink → Persisted
persist json store sink = elim (json.marshal store) [
  | none ↦ canceled
  | some b ↦ if sink.writes then (if sink.closes then closed b else canceled) else canceled
]

-- Restore; the second part says that there was no error
unfoldable pub restore : Json → Store → Bytes → Store × Bool
restore json f rc = elim (json.decode rc) [
  | none ↦ (f, false)
  | some o ↦ (record f { m = o }, true)
]
