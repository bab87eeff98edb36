-- ===== src/Go/Binary.antt =====
-- Package encoding/binary: big-endian words of 32 bits.
use raft_demo.Base.{
  ℕ, ◌+◌, ◌*◌, ◌/◌, ◌%◌, ◌^◌, ◌<◌, ◌≡◌, ◌++◌, Option, none, some, [], ◌∷◌, arith, Bytes, length,
}

-- binary.Write(w, binary.BigEndian, int32(n)): the four bytes of n modulo 2^32
unfoldable pub put_int32 : ℕ → Bytes
put_int32 n = (n / 2 ^ 24 % 256) ∷ (n / 2 ^ 16 % 256) ∷ (n / 2 ^ 8 % 256) ∷ (n % 256) ∷ []

-- binary.Read of four bytes: the word as an unsigned number and what is left to read. With fewer
-- than four bytes left there is an error.
unfoldable pub get_int32 : Bytes → Option (ℕ × Bytes)
get_int32 (a ∷ b ∷ c ∷ d ∷ rest) = some (a * 2 ^ 24 + b * 2 ^ 16 + c * 2 ^ 8 + d, rest)
get_int32 _ = none

pub get-put_int32 :
    (n : ℕ) (rest : Bytes) → n < 2 ^ 32 → get_int32 (put_int32 n ++ rest) ≡ some (n, rest)
unfolding put_int32 get_int32
get-put_int32 n rest h = ground arith

-- the word takes four bytes off
pub get_int32-length :
    (s : Bytes) (n : ℕ) (rest : Bytes) → get_int32 s ≡ some (n, rest) → length s ≡ length rest + 4
unfolding get_int32
get_int32-length (a ∷ b ∷ c ∷ d ∷ r) n rest e = ground arith
get_int32-length s n rest e = cc
