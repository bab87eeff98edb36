-- ===== src/Go/Buffers.antt =====
-- Byte slices over shared arrays, and type bytes.Buffer, which hands out slices of its own array.
pub mod Laws
use raft_demo.Base.{
  ℕ, zero, suc, ◌+◌, Option, List, [], ◌∷◌, ◌++◌, Bytes, length, get_elem?, set_elem, take,
  replicate, get_or, leb, if◌then◌else◌,
}
use raft_demo.Go.Files.{overwrite}

-- The arrays, each at its number and as long as its capacity.
abbrev pub Heap : Type 0
Heap = List Bytes

-- The first bytes of an array. A buffer is the slice of what it holds.
pub record Slice : Type 0 where
  pub array : ℕ
  pub size : ℕ

abbrev pub block : Heap → ℕ → Bytes
block heap a = get_or (get_elem? heap a) []

unfoldable pub bytes_of : Heap → Slice → Bytes
bytes_of heap s = take s.size (block heap s.array)

-- b.Reset(): the array is kept
abbrev pub reset : Slice → Slice
reset b = record b { size = 0 }

-- b.Write(p): into the array as long as it has room for p, else into a new one, which has as many
-- bytes to spare as `spare` says of the old capacity and the new length
unfoldable pub write : (spare : ℕ → ℕ → ℕ) → Heap → Slice → Bytes → Heap × Slice
write spare heap b p =
    let old = block heap b.array in
    let n = b.size + length p in
    if leb n (length old)
    then (set_elem heap b.array (overwrite old b.size p), record b { size = n })
    else (
      heap ++ (take b.size old ++ p ++ replicate (spare (length old) n) 0) ∷ [],
      record { array = length heap; size = n },
    )

-- several writes, one after the other
unfoldable pub write_all : (spare : ℕ → ℕ → ℕ) → Heap → Slice → List Bytes → Heap × Slice
write_all spare heap b [] = (heap, b)
write_all spare heap b (p ∷ ps) =
    let (heap', b') = write spare heap b p in write_all spare heap' b' ps
