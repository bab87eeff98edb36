-- ===== src/Go/Buffers/Laws.antt =====
-- What a buffer holds after writes, and when they stay in its array.
use raft_demo.Base.{
  ℕ, zero, suc, ◌+◌, ◌≤◌, ◌<◌, ◌≡◌, refl, ap, sym, ◌∙◌, List, [], ◌∷◌, ◌++◌, append_assoc,
  append-nil, Bytes, length, set_elem, take, drop, replicate, leb, arith, length-append, concat,
  take-length-append, length-drop, inl, inr, Bool-cases, true,
}
use raft_demo.Go.Files.{overwrite}
use raft_demo.Go.Buffers.{Heap, Slice, block, bytes_of, write, write_all}

-- A slice of an array that there is, and no longer than it.
abbrev pub IsWithin : Heap → Slice → Type 0
IsWithin heap s = (s.array < length heap) × (s.size ≤ length (block heap s.array))

block-set_elem :
    (heap : Heap) (a : ℕ) (p : Bytes) → a < length heap → block (set_elem heap a p) a ≡ p
block-set_elem [] a p h = absurd (omega arith)
block-set_elem (q ∷ heap) zero p h = refl
block-set_elem (q ∷ heap) (suc a) p h = block-set_elem heap a p (omega arith)

length-set_elem : (heap : Heap) (a : ℕ) (p : Bytes) → length (set_elem heap a p) ≡ length heap
length-set_elem [] a p = refl
length-set_elem (q ∷ heap) zero p = refl
length-set_elem (q ∷ heap) (suc a) p = ap suc (length-set_elem heap a p)

block-append : (heap : Heap) (p : Bytes) → block (heap ++ p ∷ []) (length heap) ≡ p
block-append [] p = refl
block-append (q ∷ heap) p = block-append heap p

length-take : (n : ℕ) (s : Bytes) → n ≤ length s → length (take n s) ≡ n
length-take zero s h = refl
length-take (suc n) [] h = absurd (omega arith)
length-take (suc n) (x ∷ s) h = ap suc (length-take n s (omega arith))

take-length_eq : (n : ℕ) (front back : Bytes) → length front ≡ n → take n (front ++ back) ≡ front
take-length_eq n front back e = rw (← e) (take-length-append front back)

take-overwrite_all :
    (c : Bytes) (off : ℕ) (p : Bytes) (n : ℕ)
    → off ≤ length c
    → off + length p ≡ n
    → take n (overwrite c off p) ≡ take off c ++ p
unfolding overwrite
take-overwrite_all c zero p n h e = take-length_eq n p (drop (length p) c) (omega arith)
take-overwrite_all [] (suc off) p n h e = absurd (omega arith)
take-overwrite_all (x ∷ c) (suc off) p zero h e = absurd (omega arith)
take-overwrite_all (x ∷ c) (suc off) p (suc n) h e =
    ap (λ (l : Bytes). x ∷ l) (take-overwrite_all c off p n (omega arith) (omega arith))

length-overwrite :
    (c : Bytes) (off : ℕ) (p : Bytes)
    → off + length p ≤ length c
    → length (overwrite c off p) ≡ length c
unfolding overwrite
length-overwrite c zero p h =
    omega (arith, length-append p (drop (length p) c), length-drop (length p) c)
length-overwrite [] (suc off) p h = absurd (omega arith)
length-overwrite (x ∷ c) (suc off) p h = ap suc (length-overwrite c off p (omega arith))

-- a new array, with bytes to spare behind what was held and what is written
length-grown : (held p spared : Bytes) → length held + length p ≤ length (held ++ p ++ spared)
length-grown held p spared = omega (arith, length-append (held ++ p) spared, length-append held p)

take-grown :
    (held p spared : Bytes) (n : ℕ)
    → length held + length p ≡ n
    → take n (held ++ p ++ spared) ≡ held ++ p
take-grown held p spared n e = take-length_eq n (held ++ p) spared (length-append held p ∙ e)

-- a slice is as long as its bytes
pub length-bytes_of :
    (heap : Heap) (s : Slice) → IsWithin heap s → length (bytes_of heap s) ≡ s.size
unfolding bytes_of
length-bytes_of heap s (there, fits) = length-take s.size (block heap s.array) fits

-- A write appends to what the buffer holds, and leaves it within its array.
pub bytes_of-write :
    (spare : ℕ → ℕ → ℕ) (heap : Heap) (b : Slice) (p : Bytes)
    → IsWithin heap b
    → IsWithin (write spare heap b p).0 (write spare heap b p).1
      × (bytes_of (write spare heap b p).0 (write spare heap b p).1 ≡ bytes_of heap b ++ p)
unfolding write bytes_of
bytes_of-write spare heap b p (there, fits) =
    let old = block heap b.array in
    let n = b.size + length p in
    elim (Bool-cases (leb n (length old))) [
      | inl room ↦
          let inside : n ≤ length old = ground arith in
          let stored = block-set_elem heap b.array (overwrite old b.size p) there in
          let same = length-set_elem heap b.array (overwrite old b.size p) in
          rw (room, stored, same)
            (
              (there, omega (arith, length-overwrite old b.size p inside)),
              take-overwrite_all old b.size p n fits refl,
            )
      | inr full ↦
          let held = take b.size old in
          let spared = replicate (spare (length old) n) 0 in
          let size = length-take b.size old fits in
          let more = length-append heap ((held ++ p ++ spared) ∷ []) in
          rw (full, block-append heap (held ++ p ++ spared))
            (
              (omega (arith, more), omega (arith, length-grown held p spared, size)),
              take-grown held p spared n (omega (arith, size)),
            )
    ]

-- The same of several writes.
pub bytes_of-write_all :
    (spare : ℕ → ℕ → ℕ) (heap : Heap) (b : Slice) (ps : List Bytes)
    → IsWithin heap b
    → IsWithin (write_all spare heap b ps).0 (write_all spare heap b ps).1
      × (bytes_of (write_all spare heap b ps).0 (write_all spare heap b ps).1
          ≡ bytes_of heap b ++ concat ps)
unfolding write_all
bytes_of-write_all spare heap b [] h = (h, sym (append-nil (bytes_of heap b)))
bytes_of-write_all spare heap b (p ∷ ps) h =
    let (heap', b') = write spare heap b p in
    let (within, held) = bytes_of-write spare heap b p h in
    let (all_within, all_held) = bytes_of-write_all spare heap' b' ps within in
    (
      all_within,
      all_held ∙ ap (λ l. l ++ concat ps) held ∙ append_assoc (bytes_of heap b) p (concat ps),
    )

-- A write for which there is room stays in the array, whose capacity it leaves.
write_room :
    (spare : ℕ → ℕ → ℕ) (heap : Heap) (b : Slice) (p : Bytes)
    → b.array < length heap
    → b.size + length p ≤ length (block heap b.array)
    → ((write spare heap b p).1 ≡ record { array = b.array; size = b.size + length p })
      × (length (write spare heap b p).0 ≡ length heap)
      × (length (block (write spare heap b p).0 b.array) ≡ length (block heap b.array))
unfolding write
write_room spare heap b p there fits =
    let old = block heap b.array in
    let room : leb (b.size + length p) (length old) ≡ true = ground arith in
    rw (room, block-set_elem heap b.array (overwrite old b.size p) there)
      (
        refl,
        length-set_elem heap b.array (overwrite old b.size p),
        length-overwrite old b.size p fits,
      )

-- Writes that fit together leave the buffer the array that it has.
pub write_all_room :
    (spare : ℕ → ℕ → ℕ) (heap : Heap) (b : Slice) (ps : List Bytes)
    → b.array < length heap
    → b.size + length (concat ps) ≤ length (block heap b.array)
    → (write_all spare heap b ps).1 ≡ record { array = b.array; size = b.size + length (concat ps) }
unfolding write_all
write_all_room spare heap b [] there fits =
    ap (λ n. record { array = b.array; size = n }) (omega arith)
write_all_room spare heap b (p ∷ ps) there fits =
    let (heap', b') = write spare heap b p in
    let more = length-append p (concat ps) in
    let (moved, blocks, capacity) = write_room spare heap b p there (omega arith) in
    let total : b.size + length p + length (concat ps) ≡ b.size + length (p ++ concat ps) =
      omega arith in
    let later : Slice = record { array = b.array; size = b.size + length p } in
    ap (λ c. (write_all spare heap' c ps).1) moved
    ∙ write_all_room spare heap' later ps (omega arith) (omega arith)
    ∙ ap (λ n. record { array = b.array; size = n }) total
