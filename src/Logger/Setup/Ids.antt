-- ===== src/Logger/Setup/Ids.antt =====
-- The identifiers that init of logger/main.go makes.
use raft_demo.Base.{
  ℕ, suc, ◌+◌, ◌≤◌, ◌≡◌, refl, Bool, true, false, List, [], ◌∷◌, ◌++◌, Bytes, codes, arith, ◌==◌,
  eq_iff, if◌then◌else◌,
}
use raft_demo.Go.Strconv.{itoa}
use raft_demo.Go.Strconv.Laws.{itoa-injective}
use raft_demo.Logger.Setup.{ids_from, is_found}

-- every element differs from those behind it
unfoldable pub is_distinct : List Bytes → Bool
is_distinct [] = true
is_distinct (x ∷ xs) = if is_found xs x then false else is_distinct xs

ids_from-is_found :
    (base_rand i j : ℕ) (addrs : List Bytes)
    → suc i ≤ j
    → is_found (ids_from base_rand j addrs) (codes "log" ++ itoa (base_rand + i)) ≡ false
unfolding ids_from is_found ◌==◌
ids_from-is_found base_rand i j [] h = refl
ids_from-is_found base_rand i j (addr ∷ addrs) h = ground (
  arith,
  ids_from-is_found base_rand i (j + 1) addrs (omega arith),
  eq_iff (itoa (base_rand + j)) (itoa (base_rand + i)),
  itoa-injective (base_rand + j) (base_rand + i),
)

-- Whatever random number a logger process gets, its loggers have identifiers that differ from each
-- other.
pub ids_from-is_distinct :
    (base_rand i : ℕ) (addrs : List Bytes) → is_distinct (ids_from base_rand i addrs) ≡ true
unfolding ids_from is_distinct
ids_from-is_distinct base_rand i [] = refl
ids_from-is_distinct base_rand i (addr ∷ addrs) = rw (
  ids_from-is_found base_rand i (i + 1) addrs (omega arith),
  ids_from-is_distinct base_rand (i + 1) addrs,
)
