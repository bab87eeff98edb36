-- ===== src/Kvstore/Setup/Keys.antt =====
-- The keys that a new store has.
use raft_demo.Base.{ℕ, zero, suc, ◌≡◌, ap, eq_iff, some, arith, ltb, if◌then◌else◌}
use raft_demo.Base.Dict
use raft_demo.Base.Dict.{Dict}
use raft_demo.Go.Strconv.{itoa}
use raft_demo.Go.Strconv.Laws.{itoa-injective}
use raft_demo.Kvstore.Setup.{pre_initialize}

itoa_apart : (n i : ℕ) → n ≡ i → itoa n ≡ itoa i
itoa_apart n i e = ap itoa e

-- After the loop has run for n keys, the decimal numbers below n have the initial value, and those
-- from n on what they had.
pub pre_initialize-get {ℓ} :
    {V : Type ℓ} (n : ℕ) (value : V) (m : Dict V) (i : ℕ)
    → Dict.get (pre_initialize n value m) (itoa i)
      ≡ (if ltb i n then some value else Dict.get m (itoa i))
unfolding pre_initialize
pre_initialize-get zero value m i = ground arith
pre_initialize-get (suc n) value m i = ground (
  arith,
  Dict.get-put (pre_initialize n value m) (itoa n) (itoa i) value,
  pre_initialize-get n value m i,
  itoa-injective n i,
  itoa_apart n i,
  eq_iff (itoa n) (itoa i),
)
