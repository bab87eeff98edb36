-- ===== src/Go/Flags/Laws.antt =====
-- Flags that are written with their values behind them.
use raft_demo.Base.{
  true, false, Option, none, some, List, [], ◌∷◌, ◌≡◌, ◌≢◌, refl, ap, ◌∙◌, arith, Bytes, dash,
  Lacks, All, if◌then◌else◌, ◌==◌, Bool-cases, inl, inr, All-map,
}
use raft_demo.Base.Dict
use raft_demo.Base.Dict.{Dict, get-put}
use raft_demo.Go.Flags.{named, cut_value, read_name, read_argument, set_flag, assign, parse}

-- A name that is not empty, does not begin with a minus sign, and has no '=' in it.
abbrev pub IsName : Bytes → Type 0
IsName [] = (true ≡ false)
IsName (b ∷ s) = (b ≢ dash) × Lacks b'=' (b ∷ s)

-- The arguments that give each flag its value.
abbrev pub spelled : List (Bytes × Bytes) → List Bytes
spelled [] = []
spelled ((name, value) ∷ more) = (dash ∷ name) ∷ value ∷ spelled more

abbrev pub IsDefined : Dict Bytes → Bytes → Type 0
IsDefined flags name = (value : Bytes) × (Dict.get flags name ≡ some value)

cut_value-Lacks : (s : Bytes) → Lacks b'=' s → cut_value s ≡ named s
unfolding cut_value
cut_value-Lacks [] h = refl
cut_value-Lacks (b ∷ s) (d, h) = ground (arith, cut_value-Lacks s h)

read_argument-name : (name : Bytes) → IsName name → read_argument (dash ∷ name) ≡ named name
unfolding read_argument read_name
read_argument-name [] h = absurd (cc)
read_argument-name (b ∷ s) (apart, (d, h)) = ground (arith, cut_value-Lacks s h)

-- A flag that gets a value leaves the others defined.
IsDefined-put :
    (flags : Dict Bytes) (name value other : Bytes)
    → IsDefined flags other
    → IsDefined (Dict.put flags name value) other
IsDefined-put flags name value other (v, e) = elim (Bool-cases (name == other)) [
  | inl same ↦ (value, rw (get-put flags name other value, same) refl)
  | inr apart ↦ (v, rw (get-put flags name other value, apart) e)
]

set_flag-IsDefined :
    (flags : Dict Bytes) (name value : Bytes)
    → IsDefined flags name
    → set_flag flags name value ≡ some (Dict.put flags name value)
unfolding set_flag
set_flag-IsDefined flags name value (v, e) = ground (arith, e)

abbrev pub Settable : Dict Bytes → Bytes × Bytes → Type 0
Settable flags (name, value) = IsName name × IsDefined flags name

Settable-put :
    (flags : Dict Bytes) (name value : Bytes) (fs : List (Bytes × Bytes))
    → All (Settable flags) fs
    → All (Settable (Dict.put flags name value)) fs
Settable-put flags name value fs =
    All-map (Settable flags) (Settable (Dict.put flags name value))
      (λ (other, _) (good, there). (good, IsDefined-put flags name value other there)) fs

-- Flags that are defined get the values that are written behind them.
pub parse-spelled :
    (flags : Dict Bytes) (fs : List (Bytes × Bytes))
    → All (Settable flags) fs
    → parse flags (spelled fs) ≡ some (assign flags fs)
unfolding parse
parse-spelled flags [] h = refl
parse-spelled flags ((name, value) ∷ fs) ((good, there), h) = ground (
  arith,
  read_argument-name name good,
  set_flag-IsDefined flags name value there,
  parse-spelled (Dict.put flags name value) fs (Settable-put flags name value fs h),
)

-- A flag that is not defined ends the process, whatever stands behind it.
pub parse-unknown :
    (flags : Dict Bytes) (name : Bytes) (rest : List Bytes)
    → IsName name
    → Dict.get flags name ≡ none
    → parse flags ((dash ∷ name) ∷ rest) ≡ none
unfolding parse set_flag
parse-unknown flags name [] good missing = ground (arith, read_argument-name name good)
parse-unknown flags name (v ∷ rest) good missing =
    ground (arith, read_argument-name name good, missing)

-- the value that a list of flags gives a name last, or a default
unfoldable pub last_value : List (Bytes × Bytes) → Bytes → Option Bytes → Option Bytes
last_value [] k default = default
last_value ((name, value) ∷ more) k default =
    last_value more k (if name == k then some value else default)

pub get-assign :
    (flags : Dict Bytes) (fs : List (Bytes × Bytes)) (k : Bytes)
    → Dict.get (assign flags fs) k ≡ last_value fs k (Dict.get flags k)
unfolding last_value
get-assign flags [] k = refl
get-assign flags ((name, value) ∷ fs) k =
    get-assign (Dict.put flags name value) fs k ∙ ap (last_value fs k) (get-put flags name k value)
