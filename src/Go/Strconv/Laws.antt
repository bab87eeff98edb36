-- ===== src/Go/Strconv/Laws.antt =====
-- Printing and reading numbers.
use raft_demo.Base.{
  ℕ, zero, suc, ◌+◌, ◌/◌, ◌%◌, ◌≤◌, ◌≡◌, refl, ◌∙◌, ap, true, false, [], ◌∷◌, some, arith,
  Bool-cases, inl, inr, eqb, Bytes, Lacks, some,
}
use raft_demo.Go.Strconv.{pos, digits, itoa, is_digit, scan, to_int, atoi, max_int}

scan-digits : (f n : ℕ) (out : Bytes) → n ≤ f → scan (digits f n out) 0 ≡ scan out n
unfolding scan digits
scan-digits zero n out h = ap (scan out) (omega arith)
scan-digits (suc f) n out h = elim (Bool-cases (eqb n 0)) [
  | inl e ↦ rw e (ap (scan out) (ground arith))
  | inr e ↦ rw e (scan-digits f (n / 10) ((b'0' + n % 10) ∷ out) (ground arith) ∙ ground arith)
]

-- A text that begins with a digit.
abbrev StartsWithDigit : Bytes → Type 0
StartsWithDigit [] = ⊥
StartsWithDigit (c ∷ s) = is_digit c ≡ true

digits-StartsWithDigit :
    (f n : ℕ) (out : Bytes) → StartsWithDigit out → StartsWithDigit (digits f n out)
unfolding digits
digits-StartsWithDigit zero n out h = h
digits-StartsWithDigit (suc f) n out h = elim (Bool-cases (eqb n 0)) [
  | inl e ↦ rw e h
  | inr e ↦ rw e (digits-StartsWithDigit f (n / 10) ((b'0' + n % 10) ∷ out) (ground arith))
]

itoa-StartsWithDigit : (n : ℕ) → StartsWithDigit (itoa n)
unfolding itoa digits
itoa-StartsWithDigit zero = refl
itoa-StartsWithDigit (suc n) =
    let more : eqb (suc n) 0 ≡ false = ground arith in
    rw more (digits-StartsWithDigit n (suc n / 10) ((b'0' + suc n % 10) ∷ []) (ground arith))

scan-itoa : (n : ℕ) → scan (itoa n) 0 ≡ some n
unfolding itoa scan
scan-itoa zero = refl
scan-itoa (suc n) = scan-digits (suc n) (suc n) [] (omega arith)

atoi-of_digit : (s : Bytes) → StartsWithDigit s → atoi s ≡ to_int (scan s 0)
unfolding atoi
atoi-of_digit (c ∷ s) h = ground arith
atoi-of_digit [] h = absurd h

-- What Itoa prints, Atoi reads, as far as an int reaches.
pub atoi-itoa : (n : ℕ) → n ≤ max_int → atoi (itoa n) ≡ some (pos n)
atoi-itoa n h = atoi-of_digit (itoa n) (itoa-StartsWithDigit n) ∙ rw (scan-itoa n) (ground arith)

-- Different numbers are printed differently.
pub itoa-injective : (m n : ℕ) → itoa m ≡ itoa n → m ≡ n
itoa-injective m n e = cc (scan-itoa m, scan-itoa n, ap (λ s. scan s 0) e)

-- A decimal number has no byte that is no digit.
module _ (b : ℕ) (other : is_digit b ≡ false) where
  digits-Lacks : (f n : ℕ) (out : Bytes) → Lacks b out → Lacks b (digits f n out)
  unfolding digits
  digits-Lacks zero n out h = h
  digits-Lacks (suc f) n out h = elim (Bool-cases (eqb n 0)) [
    | inl e ↦ rw e h
    | inr e ↦ rw e (digits-Lacks f (n / 10) ((b'0' + n % 10) ∷ out) ((λ q. ground arith), h))
  ]

  pub itoa-Lacks : (n : ℕ) → Lacks b (itoa n)
  unfolding itoa
  itoa-Lacks zero = ((λ q. ground arith), tt)
  itoa-Lacks (suc n) = digits-Lacks (suc n) (suc n) [] tt
