-- ===== src/Membership/Requests.antt =====
-- Join requests: the line that a node sends, and how the handler reads it.
use raft_demo.Base.{
  ◌≡◌, refl, ap, ◌∙◌, Bool, true, false, List, [], ◌∷◌, ◌++◌, append_assoc, Bytes, codes, dash,
  newline, Lacks, Lacks-append, arith, get_or,
}
use raft_demo.Go.Strings.{split, trim_suffix}
use raft_demo.Go.Strings.Laws.{split-append, trim_suffix-concat}
use raft_demo.Go.Strconv.{parse_bool}
use raft_demo.Go.Bufio.{read_string, read_string-line}
use raft_demo.Membership.Raft.{Cluster}
use raft_demo.Membership.{join_raft, or_fatal, handle_join}

-- strconv.FormatBool, as the two programs write it out
abbrev pub flag_text : Bool → Bytes
flag_text true = codes "true"
flag_text false = codes "false"

-- svrID + "-" + raftAddr + "-" + "true" + "\n" in kvstore/main.go; "false" in logger/main.go
unfoldable pub join_request : Bytes → Bytes → Bool → Bytes
join_request id addr voter = id ++ (dash ∷ (addr ++ (dash ∷ (flag_text voter ++ newline ∷ []))))

flag_text-read :
    (voter : Bool)
    → get_or (parse_bool (trim_suffix (flag_text voter ++ newline ∷ []) (newline ∷ []))) false
      ≡ voter
flag_text-read true = rw trim_suffix-concat (unfold parse_bool in refl)
flag_text-read false = rw trim_suffix-concat (unfold parse_bool in refl)

split-flag :
    (voter : Bool)
    → split (flag_text voter ++ newline ∷ []) dash ≡ (flag_text voter ++ newline ∷ []) ∷ []
split-flag true = unfold split in refl
split-flag false = unfold split in refl

flag_text-Lacks : (voter : Bool) → Lacks newline (flag_text voter)
flag_text-Lacks true = omega arith
flag_text-Lacks false = omega arith

-- A text that can stand in a join request.
pub record IsField (s : Bytes) : Type 0 where
  pub no_dash : Lacks dash s
  pub one_line : Lacks newline s

module _ (id addr : Bytes) (voter : Bool) (i : IsField id) (a : IsField addr) where
  split-join_request :
      split (join_request id addr voter) dash ≡ id ∷ addr ∷ (flag_text voter ++ newline ∷ []) ∷ []
  unfolding join_request
  split-join_request =
      split-append id _ dash i.no_dash
      ∙ ap (λ (l : List Bytes). id ∷ l)
          (split-append addr _ dash a.no_dash
            ∙ ap (λ (l : List Bytes). addr ∷ l) (split-flag voter))

  line : Bytes
  line = id ++ (dash ∷ (addr ++ (dash ∷ flag_text voter)))

  line_lem : join_request id addr voter ≡ line ++ newline ∷ []
  unfolding join_request line
  line_lem = simp append_assoc

  read_string-join_request : read_string (join_request id addr voter) ≡ join_request id addr voter
  unfolding line
  read_string-join_request = rw line_lem (
      read_string-line line [] (
        Lacks-append newline id _ i.one_line (
          (λ e. omega arith),
          Lacks-append newline addr _ a.one_line ((λ e. omega arith), flag_text-Lacks voter),
        )))

-- What a node sends, whose ID and address have no dash and no newline, is handled as a JoinRaft of
-- this ID and address, as a voter if it asked for it; an error of JoinRaft ends the process.
pub handle_join-join_request :
    (c : Cluster) (s : c.State) (id addr : Bytes) (voter : Bool)
    → IsField id
    → IsField addr
    → handle_join c s (join_request id addr voter) ≡ or_fatal c (join_raft c s id addr voter)
unfolding handle_join
handle_join-join_request c s id addr voter i a = rw (
  handle_join,
  read_string-join_request id addr voter i a,
  split-join_request id addr voter i a,
  flag_text-read voter,
)
