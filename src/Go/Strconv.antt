-- ===== src/Go/Strconv.antt =====
-- Package strconv: decimal numbers and truth values.
pub mod Laws
use raft_demo.Base.{
  ℕ, zero, suc, ◌+◌, ◌-◌, ◌*◌, ◌/◌, ◌%◌, ◌^◌, Bool, true, false, ◌&&◌, ◌||◌, [], ◌∷◌, Option, none,
  some, leb, ltb, eqb, if◌then◌else◌, Bytes, codes, ◌==◌,
}

-- Go's int (of 64 bits): `negsuc n` is -(n + 1).
pub data ℤ : Type 0 where
  pos : ℕ → ℤ
  negsuc : ℕ → ℤ

-- The digits of n in front of `out`; n is fuel enough, since each round divides by ten.
unfoldable pub digits : ℕ → ℕ → Bytes → Bytes
digits zero n out = out
digits (suc f) n out =
    let rest = digits f (n / 10) ((b'0' + n % 10) ∷ out) in if eqb n 0 then out else rest

-- strconv.Itoa(n) and strconv.FormatUint(n, 10), of a number that is not negative
unfoldable pub itoa : ℕ → Bytes
unfolding digits
itoa zero = b'0' ∷ []
itoa (suc n) = digits (suc n) (suc n) []

abbrev pub is_digit : ℕ → Bool
is_digit c = leb b'0' c && leb c b'9'

unfoldable pub scan : Bytes → ℕ → Option ℕ
scan [] n = some n
scan (c ∷ s) n = if is_digit c then scan s (n * 10 + (c - b'0')) else none

abbrev pub max_int : ℕ
max_int = 2 ^ 63 - 1

abbrev pub to_int : Option ℕ → Option ℤ
to_int none = none
to_int (some n) = if leb n max_int then some (pos n) else none

abbrev pub to_negative : Option ℕ → Option ℤ
to_negative none = none
to_negative (some n) =
    if eqb n 0 then some (pos 0) else if leb n (max_int + 1) then some (negsuc (n - 1)) else none

abbrev pub scan_digits : Bytes → Option ℕ
scan_digits [] = none
scan_digits (c ∷ s) = scan (c ∷ s) 0

-- strconv.Atoi(s), where every error is `none`
unfoldable pub atoi : Bytes → Option ℤ
unfolding scan
atoi [] = none
atoi (c ∷ s) =
    if eqb c b'-'
    then to_negative (scan_digits s)
    else if eqb c b'+'
    then to_int (scan_digits s)
    else to_int (scan_digits (c ∷ s))

abbrev is_one_of : Bytes → Bytes → Bytes → Bytes → Bytes → Bytes → Bytes → Bool
is_one_of s a b c d e f = s == a || s == b || s == c || s == d || s == e || s == f

-- strconv.ParseBool(s), where an error is `none`
unfoldable pub parse_bool : Bytes → Option Bool
unfolding ◌==◌
parse_bool s =
    if is_one_of s (codes "1") (codes "t") (codes "T") (codes "TRUE") (codes "true") (codes "True")
    then some true
    else if is_one_of s (codes "0") (codes "f") (codes "F") (codes "FALSE") (codes "false")
        (codes "False")
    then some false
    else none
