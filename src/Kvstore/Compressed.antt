-- ===== src/Kvstore/Compressed.antt =====
-- The gzip branches of kvstore/fsm.go and of New of kvstore/store.go: what a replica does with the
-- values when the constant compressValues is true. The bytes of its one gzipBuffer are stored in
-- the map as a slice of the array of the buffer, which Reset keeps.
pub mod Aliased
use raft_demo.Base.{ℕ, zero, suc, ◌+◌, Option, none, some, List, [], ◌∷◌, Bytes, replicate}
use raft_demo.Base.Dict
use raft_demo.Base.Dict.{Dict}
use raft_demo.Go.Buffers.{Heap, Slice, bytes_of, reset, write_all}
use raft_demo.Kvstore.Setup.{pre_initialize, init_value}

-- compress/gzip: the parts in which a Writer hands one text to its buffer, from NewWriter to Close,
-- and what ReadAll gets of a stream before its end or its first fault; `none` where NewReader
-- finds no header.
pub record Gzip : Type 0 where
  pub parts : Bytes → List Bytes
  pub read_all : Bytes → Option Bytes

-- The fields of Store that these branches read and write, with the arrays behind the slices.
pub record Store : Type 0 where
  pub heap : Heap
  pub m : Dict Slice
  pub gzip_buffer : Slice

-- applyGet; `none` is the panic of reading from the nil that NewReader returns with its error
unfoldable pub apply_get : Gzip → Store → Bytes → Option (Store × Bytes)
apply_get gzip f key = elim (Dict.get f.m key) [
  | none ↦ some (f, [])
  | some value ↦ elim (gzip.read_all (bytes_of f.heap value)) [
    | none ↦ none
    | some text ↦ some (record f { gzip_buffer = reset f.gzip_buffer }, text)
  ]
]

module _ (spare : ℕ → ℕ → ℕ) (gzip : Gzip) where
  -- Reset, NewWriter, Write, Flush and Close; a write into a buffer does not fail
  unfoldable pub compress : Heap → Slice → Bytes → Heap × Slice
  compress heap buffer value = write_all spare heap (reset buffer) (gzip.parts value)

  -- applySet
  unfoldable pub apply_set : Store → Bytes → Bytes → Store × Bytes
  apply_set f key value =
      let (heap', buffer') = compress f.heap f.gzip_buffer value in
      (record { heap = heap'; m = Dict.put f.m key buffer'; gzip_buffer = buffer' }, [])

  -- New, with n for the constant numInitKeys: the zero value of bytes.Buffer has an empty array
  unfoldable pub new : ℕ → Store
  new n =
      let (heap, buffer) = compress ([] ∷ []) (record { array = 0; size = 0 }) init_value in
      record { heap = heap; m = pre_initialize n buffer Dict.empty; gzip_buffer = buffer }
