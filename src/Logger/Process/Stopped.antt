-- ===== src/Logger/Process/Stopped.antt =====
-- A signal to the logger process while its loggers are made.
use raft_demo.Base.{
  ℕ, zero, suc, ◌+◌, ◌<◌, ◌≡◌, refl, ◌↔◌, none, some, [], ◌∷◌, replicate, get_elem?, set_elem,
  arith,
}
use raft_demo.Pb.{Codec}
use raft_demo.Logger.Fsm.{apply}
use raft_demo.Logger.Process.{Running, running, Instances, Reach, started, made, applied, stop}

-- the instances that are nil
unfoldable pub missing : Instances → ℕ
missing [] = 0
missing (none ∷ ls) = suc (missing ls)
missing (some l ∷ ls) = missing ls

missing-replicate : (n : ℕ) → missing (replicate n none) ≡ n
unfolding missing
missing-replicate zero = refl
missing-replicate (suc n) = omega (arith, missing-replicate n)

missing-made :
    (s : Instances) (j : ℕ) (x : Running)
    → get_elem? s j ≡ some none
    → suc (missing (set_elem s j (some x))) ≡ missing s
unfolding missing
missing-made [] j x e = absurd (cc)
missing-made (none ∷ s) zero x e = refl
missing-made (some l ∷ s) zero x e = absurd (ground (arith, e))
missing-made (none ∷ s) (suc j) x e = omega (arith, missing-made s j x e)
missing-made (some l ∷ s) (suc j) x e = missing-made s j x e

missing-applied :
    (s : Instances) (j : ℕ) (x y : Running)
    → get_elem? s j ≡ some (some x)
    → missing (set_elem s j (some y)) ≡ missing s
unfolding missing
missing-applied [] j x y e = absurd (cc)
missing-applied (none ∷ s) zero x y e = absurd (ground (arith, e))
missing-applied (some l ∷ s) zero x y e = refl
missing-applied (none ∷ s) (suc j) x y e = omega (arith, missing-applied s j x y e)
missing-applied (some l ∷ s) (suc j) x y e = missing-applied s j x y e

stop-missing : (s : Instances) → (stop s ≡ none) ↔ (0 < missing s)
unfolding stop missing
stop-missing [] = ground arith
stop-missing (none ∷ s) = ground arith
stop-missing (some l ∷ s) = ground (arith, stop-missing s)

module _ (pb : Codec) (num_apps : ℕ) where
  -- the loggers that were made and those that are missing are all
  made_missing : (m : ℕ) (s : Instances) → Reach pb num_apps m s → m + missing s ≡ num_apps
  made_missing _ _ started = omega (arith, missing-replicate num_apps)
  made_missing _ _ (made {m} {s} j l r e) =
      omega (arith, missing-made s j (running l) e, made_missing m s r)
  made_missing _ _ (applied {m} {s} j x entry r e) =
      let handed = record x { logger = (apply pb x.logger entry).0 } in
      omega (arith, missing-applied s j x handed e, made_missing m s r)

  -- In every interleaving of the goroutines a signal makes main panic exactly if not all loggers have
  -- been made by then.
  pub stop-Reach :
      (m : ℕ) (s : Instances) → Reach pb num_apps m s → (stop s ≡ none) ↔ (m < num_apps)
  stop-Reach m s r = ground (arith, stop-missing s, made_missing m s r)
