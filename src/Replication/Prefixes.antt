-- ===== src/Replication/Prefixes.antt =====
-- The state machines over a sequence of entries and the next one.
use raft_demo.Base.{
  ℕ, zero, suc, ◌≤◌, ◌≡◌, refl, ap, Bool, true, false, not, none, some, List, [], ◌∷◌, ◌++◌,
  get_elem?, take, drop, length, arith, All,
}
use raft_demo.Pb.{get, set, Log, Codec}
use raft_demo.Kvstore.Fsm.{Store, apply_set, dispatch, apply, run}
use raft_demo.Kvstore.Fsm.Logged.{logged}
use raft_demo.Logger.Fsm
use raft_demo.Logger.Fsm.{Logger}
use raft_demo.Replication.{goes_on}

pub take-append_of_le {ℓ} :
    {A : Type ℓ} (n : ℕ) (xs ys : List A) → n ≤ length xs → take n (xs ++ ys) ≡ take n xs
take-append_of_le zero xs ys h = refl
take-append_of_le (suc n) [] ys h = absurd (omega arith)
take-append_of_le (suc n) (x ∷ xs) ys h = ap (λ l. x ∷ l) (take-append_of_le n xs ys (omega arith))

pub take-concat {ℓ} :
    {A : Type ℓ} (n : ℕ) (xs : List A) (x : A)
    → get_elem? xs n ≡ some x
    → (take (suc n) xs ≡ take n xs ++ x ∷ []) × (suc n ≤ length xs)
take-concat n [] x e = absurd (cc)
take-concat zero (y ∷ xs) x e = ground (arith, e)
take-concat (suc n) (y ∷ xs) x e =
    let (t, l) = take-concat n xs x e in (ap (λ z. y ∷ z) t, omega (arith, l))

pub All-take {ℓ κ} :
    {A : Type ℓ} (P : A → Type κ) (n : ℕ) (xs : List A) → All P xs → All P (take n xs)
All-take P zero xs h = tt
All-take P (suc n) [] h = tt
All-take P (suc n) (x ∷ xs) (p, h) = (p, All-take P n xs h)

-- the first entries of a sequence, and those that a longer part of it has behind them
pub take-take-drop {ℓ} :
    {A : Type ℓ} (m n : ℕ) (xs : List A) → m ≤ n → take n xs ≡ take m xs ++ drop m (take n xs)
take-take-drop zero n xs h = refl
take-take-drop (suc m) zero xs h = absurd (omega arith)
take-take-drop (suc m) (suc n) [] h = refl
take-take-drop (suc m) (suc n) (x ∷ xs) h = ap (λ l. x ∷ l) (take-take-drop m n xs (omega arith))

module _ (pb : Codec) where
  -- an entry at which a replica panics
  abbrev pub is_fatal : Log → Bool
  is_fatal l = elim (pb.unmarshal l.bytes) [
    | none ↦ false
    | some c ↦ elim c.op [ set ↦ false | get ↦ false | _ ↦ true ]
  ]

  unfoldable pub survives : List Log → Bool
  survives [] = true
  survives (l ∷ ls) = elim (is_fatal l) [ true ↦ false | false ↦ survives ls ]

  pub goes_on-apply : (f : Store) (l : Log) → goes_on (apply pb f l).1 ≡ not (is_fatal l)
  unfolding apply dispatch apply_set
  goes_on-apply f l = ground arith

  pub run-concat :
      (f : Store) (ls : List Log) (l : Log)
      → survives ls ≡ true
      → (run pb f (ls ++ l ∷ []) ≡ (apply pb (run pb f ls) l).0)
        × (survives (ls ++ l ∷ []) ≡ goes_on (apply pb (run pb f ls) l).1)
  unfolding run survives
  run-concat f [] l h = ground (arith, goes_on-apply f l)
  run-concat f (k ∷ ls) l h = ground (arith, h, goes_on-apply f k, run-concat (apply pb f k).0 ls l)

  -- Behind entries that are not fatal the commands go on.
  pub logged-append :
      (xs ys : List Log) → survives xs ≡ true → logged pb (xs ++ ys) ≡ logged pb xs ++ logged pb ys
  unfolding survives logged
  logged-append [] ys h = refl
  logged-append (x ∷ xs) ys h = ground (arith, h, logged-append xs ys)

  pub run_logger-concat :
      (s : Logger) (ls : List Log) (l : Log)
      → Fsm.run pb s (ls ++ l ∷ []) ≡ (Fsm.apply pb (Fsm.run pb s ls) l).0
  unfolding Fsm.run
  run_logger-concat s [] l = refl
  run_logger-concat s (k ∷ ls) l = run_logger-concat (Fsm.apply pb s k).0 ls l
