-- ===== src/Go/Files.antt =====
-- Type os.File: the bytes of the file and the offset of the descriptor. Writes do not fail here.
pub mod Laws
use raft_demo.Base.{
  ℕ, zero, suc, ◌+◌, ◌≡◌, refl, Option, none, some, [], ◌∷◌, ◌++◌, arith, eqb, if◌then◌else◌, Bytes,
  length, take, drop, ap, length-append, sym, drop-length-append, drop-nil_of_le, append-nil, ◌∙◌,
}

-- The bytes of a file after `p` was written at an offset; what is skipped past the end is zeros.
unfoldable pub overwrite : Bytes → ℕ → Bytes → Bytes
overwrite content zero p = p ++ drop (length p) content
overwrite [] (suc k) p = 0 ∷ overwrite [] k p
overwrite (x ∷ content) (suc k) p = x ∷ overwrite content k p

pub record File : Type 0 where
  pub content : Bytes
  pub offset : ℕ

-- f.Write(p)
unfoldable pub write : File → Bytes → File
unfolding overwrite
write f p = record { content = overwrite f.content f.offset p; offset = f.offset + length p }

-- f.ReadAt of n bytes at an offset; a short read is an error
unfoldable pub read_at : Bytes → ℕ → ℕ → Option Bytes
read_at content n off =
    let got = take n (drop off content) in if eqb (length got) n then some got else none

drop_nil : (n : ℕ) → drop {A = ℕ} n [] ≡ []
drop_nil zero = refl
drop_nil (suc n) = refl

-- A write at the end of the file appends.
pub overwrite_end : (content p : Bytes) → overwrite content (length content) p ≡ content ++ p
unfolding overwrite
overwrite_end [] p = rw drop_nil (append-nil p)
overwrite_end (x ∷ content) p = ap (λ l. x ∷ l) (overwrite_end content p)

-- A write within the file, between what stands in front and what it covers.
pub overwrite_middle :
    (front covered rest p : Bytes)
    → length p ≡ length covered
    → overwrite (front ++ covered ++ rest) (length front) p ≡ front ++ p ++ rest
unfolding overwrite
overwrite_middle [] covered rest p h = rw (h, drop-length-append covered rest)
overwrite_middle (x ∷ front) covered rest p h =
    ap (λ l. x ∷ l) (overwrite_middle front covered rest p h)

-- Where a descriptor stands at the end of its file, writes append.
pub write_end :
    (f : File) (p : Bytes) → f.offset ≡ length f.content → (write f p).content ≡ f.content ++ p
unfolding write
write_end f p h = rw h (overwrite_end f.content p)

pub write_offset :
    (f : File) (p : Bytes)
    → f.offset ≡ length f.content
    → (write f p).offset ≡ length (write f p).content
unfolding write
write_offset f p h = rw (h, overwrite_end) (sym (length-append f.content p))
