-- ===== src/Go/Strings/Laws.antt =====
-- Splitting at a separator, and the line end that is cut off again.
use raft_demo.Base.{
  ℕ, zero, suc, ◌-◌, ◌≡◌, refl, [], ◌∷◌, ◌++◌, arith, Bytes, eq_iff, eq_refl, Lacks, length, drop,
  subst, length-append, take-length-append, drop-length-append,
}
use raft_demo.Go.Strings.{split, trim_suffix}

-- A text without the separator is one part.
pub split-Lacks : (s : Bytes) (sep : ℕ) → Lacks sep s → split s sep ≡ s ∷ []
unfolding split
split-Lacks [] sep h = refl
split-Lacks (c ∷ s) sep (d, h) = rw (split-Lacks s sep h) (ground arith)

-- The part in front of the first separator comes off.
pub split-append :
    (s t : Bytes) (sep : ℕ) → Lacks sep s → split (s ++ sep ∷ t) sep ≡ s ∷ split t sep
unfolding split
split-append [] t sep h = ground arith
split-append (c ∷ s) t sep (d, h) = rw (split-append s t sep h) (ground arith)

Lacks-drop : (b n : ℕ) (s : Bytes) → Lacks b s → Lacks b (drop n s)
Lacks-drop b zero s h = h
Lacks-drop b (suc n) [] h = tt
Lacks-drop b (suc n) (c ∷ s) (_, h) = Lacks-drop b n s h

length-concat : (s : Bytes) (b : ℕ) → length (s ++ b ∷ []) - 1 ≡ length s
length-concat s b = omega (arith, length-append s (b ∷ []))

-- A final byte that is the suffix is cut off.
pub trim_suffix-concat : (s : Bytes) (b : ℕ) → trim_suffix (s ++ b ∷ []) (b ∷ []) ≡ s
unfolding trim_suffix
trim_suffix-concat s b =
    rw (length-concat s b, drop-length-append s (b ∷ []), take-length-append s (b ∷ []))
      (ground (arith, eq_refl (b ∷ []), length-append s (b ∷ [])))

-- A text without the byte stays as it is.
pub trim_suffix-Lacks : (s : Bytes) (b : ℕ) → Lacks b s → trim_suffix s (b ∷ []) ≡ s
unfolding trim_suffix
trim_suffix-Lacks s b h = ground (
  arith,
  eq_iff (drop (length s - 1) s) (b ∷ []),
  λ (e : drop (length s - 1) s ≡ b ∷ []).
      (subst (Lacks b) e (Lacks-drop b (length s - 1) s h)).0 refl,
)
