-- ===== src/Logger/Setup/Started.antt =====
-- The lists of parseIPsFromArgsConfig in logger/main.go, and the start of the loggers in main.
use raft_demo.Base.{
  ℕ, zero, suc, ◌+◌, ◌≤◌, ◌<◌, ◌≡◌, refl, some, List, [], ◌∷◌, Bytes, length, get_elem?, arith, ap,
}
use raft_demo.Go.Strings.{split}
use raft_demo.Logger.Setup.{
  Config, Instance, start, count_diff, count_diff_str_in_slice, parse_ips_from_args_config,
  ids_from, rafts_from,
}

get_elem?-some {ℓ} :
    {A : Type ℓ} (xs : List A) (j : ℕ) → j < length xs → (x : A) × (get_elem? xs j ≡ some x)
get_elem?-some [] j h = absurd (omega arith)
get_elem?-some (x ∷ xs) zero h = (x, refl)
get_elem?-some (x ∷ xs) (suc j) h = get_elem?-some xs j (omega arith)

-- each list has at least as many entries as there are applications
abbrev IsIndexable : Config → Type 0
IsIndexable c =
    (c.num_apps ≤ length c.log_ids)
    × (c.num_apps ≤ length c.raft_addrs)
    × (c.num_apps ≤ length c.join_addrs)

start-some :
    (c : Config) (j : ℕ) → IsIndexable c → j < c.num_apps → (i : Instance) × (start c j ≡ some i)
unfolding start
start-some c j (h, h', h'') l =
    let (x, e) = get_elem?-some c.log_ids j (omega arith) in
    let (y, e') = get_elem?-some c.raft_addrs j (omega arith) in
    let (z, e'') = get_elem?-some c.join_addrs j (omega arith) in
    (record { log_id = x; raft_addr = y; join_addr = z }, rw (start, e, e', e''))

count_diff-le :
    (found elements : List Bytes) (n : ℕ) → count_diff found elements n ≤ n + length elements
unfolding count_diff
count_diff-le found [] n = omega arith
count_diff-le found (str ∷ elements) n =
    ground (arith, count_diff-le found elements n, count_diff-le (str ∷ found) elements (n + 1))

parsed-IsIndexable :
    (logs raft joins : Bytes) (c : Config)
    → parse_ips_from_args_config logs raft joins ≡ some c
    → IsIndexable c
unfolding parse_ips_from_args_config count_diff_str_in_slice
parsed-IsIndexable logs raft joins c h =
    let a = count_diff-le [] (split logs b',') 0 in
    let b = count_diff-le [] (split raft b',') 0 in
    let d = count_diff-le [] (split joins b',') 0 in ground (arith, h, a, b, d)

-- Whatever the flags are, if they are accepted, then main starts every one of its loggers: no index
-- is out of the range of a list.
pub start-parse_ips_from_args_config :
    (logs raft joins : Bytes) (c : Config) (j : ℕ)
    → parse_ips_from_args_config logs raft joins ≡ some c
    → j < c.num_apps
    → (i : Instance) × (start c j ≡ some i)
start-parse_ips_from_args_config logs raft joins c j h l =
    start-some c j (parsed-IsIndexable logs raft joins c h) l

length-ids_from :
    (base_rand i : ℕ) (addrs : List Bytes) → length (ids_from base_rand i addrs) ≡ length addrs
unfolding ids_from
length-ids_from base_rand i [] = refl
length-ids_from base_rand i (addr ∷ addrs) = ap suc (length-ids_from base_rand (i + 1) addrs)

length-rafts_from :
    (ip : Bytes) (i : ℕ) (addrs : List Bytes) → length (rafts_from ip i addrs) ≡ length addrs
unfolding rafts_from
length-rafts_from ip i [] = refl
length-rafts_from ip i (addr ∷ addrs) = ap suc (length-rafts_from ip (i + 1) addrs)
