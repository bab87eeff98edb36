-- ===== src/Go/Files/Laws.antt =====
-- Reading at an offset after a write at an offset.
use raft_demo.Base.{
  ℕ, zero, suc, ◌+◌, ◌≤◌, ◌≡◌, refl, ap, ◌∙◌, some, [], ◌∷◌, ◌++◌, append-nil, Bytes, length, take,
  drop, take-length-append, drop-nil_of_le, length-append, arith, inl, inr, ◌⊎◌,
}
use raft_demo.Go.Files.{overwrite, File, write, read_at, drop_nil}

-- behind the offset: what was written, and then the rest of what stood there
drop-overwrite :
    (c : Bytes) (off : ℕ) (p : Bytes)
    → drop off (overwrite c off p) ≡ p ++ drop (length p) (drop off c)
unfolding overwrite
drop-overwrite c zero p = refl
drop-overwrite [] (suc off) p =
    drop-overwrite [] off p ∙ ap (λ (l : Bytes). p ++ drop (length p) l) (drop_nil off)
drop-overwrite (x ∷ c) (suc off) p = drop-overwrite c off p

-- What was written is read back.
pub read_at-overwrite_self :
    (c : Bytes) (off : ℕ) (p : Bytes) → read_at (overwrite c off p) (length p) off ≡ some p
unfolding read_at
read_at-overwrite_self c off p =
    rw (drop-overwrite c off p, take-length-append p (drop (length p) (drop off c))) (ground arith)

take-overwrite :
    (c : Bytes) (off n : ℕ) (p : Bytes)
    → n ≤ off
    → n ≤ length c
    → take n (overwrite c off p) ≡ take n c
unfolding overwrite
take-overwrite c off zero p h k = refl
take-overwrite [] off (suc n) p h k = elim k [ ]
take-overwrite (x ∷ c) zero (suc n) p h k = elim h [ ]
take-overwrite (x ∷ c) (suc off) (suc n) p h k =
    ap (λ (l : Bytes). x ∷ l) (take-overwrite c off n p (omega arith) (omega arith))

-- a read in front of the write
before :
    (c : Bytes) (off at n : ℕ) (p : Bytes)
    → at + n ≤ off
    → at + n ≤ length c
    → take n (drop at (overwrite c off p)) ≡ take n (drop at c)
unfolding overwrite
before c off zero n p h k = take-overwrite c off n p (omega arith) (omega arith)
before c zero (suc at) n p h k = absurd (omega arith)
before [] (suc off) (suc at) n p h k = absurd (omega arith)
before (x ∷ c) (suc off) (suc at) n p h k = before c off at n p (omega arith) (omega arith)

drop-append_le :
    (p s : Bytes) (at : ℕ) → length p ≤ at → drop at (p ++ drop (length p) s) ≡ drop at s
drop-append_le [] s at h = refl
drop-append_le (b ∷ p) s zero h = elim h [ ]
drop-append_le (b ∷ p) [] (suc at) h = rw append-nil (drop-nil_of_le at p (omega arith))
drop-append_le (b ∷ p) (x ∷ s) (suc at) h = drop-append_le p s at (omega arith)

-- a read behind the write
behind :
    (c : Bytes) (off at : ℕ) (p : Bytes)
    → off + length p ≤ at
    → at ≤ length c
    → drop at (overwrite c off p) ≡ drop at c
unfolding overwrite
behind c zero at p h k = drop-append_le p c at (omega arith)
behind c (suc off) zero p h k = absurd (omega arith)
behind [] (suc off) (suc at) p h k = elim k [ ]
behind (x ∷ c) (suc off) (suc at) p h k = behind c off at p (omega arith) (omega arith)

-- A read that a write does not touch is as it was.
pub read_at-overwrite_apart :
    (c : Bytes) (off at n : ℕ) (p : Bytes)
    → at + n ≤ length c
    → (at + n ≤ off) ⊎ (off + length p ≤ at)
    → read_at (overwrite c off p) n at ≡ read_at c n at
unfolding read_at
read_at-overwrite_apart c off at n p h (inl front) = rw (before c off at n p front h)
read_at-overwrite_apart c off at n p h (inr back) = rw (behind c off at p back (omega arith))

-- A write behind what was written over old bytes covers the next of them.
pub overwrite_tail :
    (written p old : Bytes)
    → overwrite (written ++ drop (length written) old) (length written) p
      ≡ (written ++ p) ++ drop (length (written ++ p)) old
unfolding overwrite
overwrite_tail [] p old = refl
overwrite_tail (x ∷ written) p [] =
    ap (λ l. x ∷ l)
      (rw (drop_nil (length written), drop_nil (length (written ++ p))) at
        (overwrite_tail written p []))
overwrite_tail (x ∷ written) p (y ∷ old) = ap (λ l. x ∷ l) (overwrite_tail written p old)

-- The file holds what was written so far, and behind it the rest of the old bytes.
abbrev pub IsOver : Bytes → Bytes → File → Type 0
IsOver old written file =
    (file.content ≡ written ++ drop (length written) old) × (file.offset ≡ length written)

pub write-IsOver :
    (old written p : Bytes) (file : File)
    → IsOver old written file
    → IsOver old (written ++ p) (write file p)
unfolding write
write-IsOver old written p file (bytes, at_end) = (
  rw (bytes, at_end) (overwrite_tail written p old),
  omega (arith, at_end, length-append written p),
)
